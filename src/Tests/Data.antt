-- ===== src/Tests/Data.antt =====
-- Two nodes on a clock of 10000 ticks in a millisecond, and what they are connected by.
use sinboha.Imp.Interface.{Memory}
use sinboha.Prelude.{ℕ, some, none, true, false}
use sinboha.Prelude.Int.{pos}
use sinboha.Types.{SinbohaStatus, pending, active}
use sinboha.StatusRep.{StatusRep}
use sinboha.NetClient.{Transport, NetClient}
use sinboha.Sync
use sinboha.Sync.{Sync}
use sinboha.BrainSplit.Thread.{running}
use sinboha.NetService
use sinboha.Pair.{Readings}
use sinboha.Imp.{Imp, Settings, Starts}
use sinboha.Launch.{launched}

abbrev pub ticks : ℕ
ticks = 10000

-- A node with a callback.
abbrev pub node : ℕ → SinbohaStatus → StatusRep
node t s = record { change_time = pos t; status = s; callback = some 7; peer_live_time = pos 0 }

-- Two nodes that started three milliseconds apart.
abbrev pub early : StatusRep
early = node 120005 pending

abbrev pub late : StatusRep
late = node 150007 pending

abbrev pub at : ℕ → Readings
at n = record { heard = pos n; live = pos n; now = pos n }

abbrev pub line : Transport
line = record { host = "b"; port = pos 9; timeout = pos 200 }

abbrev pub connected : NetClient
connected = record {
  transport = some line;
  client = some line;
  peer_address = "b";
  port = pos 9;
  network_timeout = pos 200;
}

abbrev pub beating : Sync
beating = record {
  quit = false;
  network = some connected;
  peer_address = "b";
  peer_port = pos 9;
  network_timeout = pos 200;
  heartbeat = pos 500;
  switch_timeout = pos 3000;
  thread = Sync.at_query (pos 500);
}

abbrev pub idle_sync : Sync
idle_sync = record beating { quit = true; network = none; thread = Sync.no_thread }

abbrev pub fresh : NetClient
fresh = record connected { transport = none; client = none; peer_address = "" }

abbrev pub settings : Settings
settings = record {
  peer_primary_address = "b";
  peer_secondary_address = "";
  peer_port = pos 9;
  port = pos 8;
  network_timeout = pos 200;
  heartbeat = pos 500;
  switch_timeout = pos 1000;
}

abbrev pub starts : Starts
starts = record {
  primary_client = fresh;
  secondary_client = fresh;
  service_launch = launched;
  primary_launch = launched;
  secondary_launch = launched;
  checker_launch = launched;
}

-- The object before `Initialize`.
abbrev pub stopped : Imp
stopped = record {
  status = early;
  service = record { quit = true; server = none; thread = NetService.no_thread };
  primary = idle_sync;
  secondary = idle_sync;
  checker = record (running (pos 1000)) { quit = true };
}

-- The object while it works.
abbrev pub working : Imp
working = record {
  status = node 120005 active;
  service = record { quit = false; server = none; thread = NetService.at_serve };
  primary = beating;
  secondary = idle_sync;
  checker = running (pos 1000);
}

-- What a constructor finds in memory.
abbrev pub memory : Memory
memory = record {
  primary_port = pos 1;
  primary_timeout = pos 2;
  secondary_port = pos 3;
  secondary_timeout = pos 4;
  switch_timeout = pos 5;
}

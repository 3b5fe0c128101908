-- ===== src/RpcHandler/Factory.antt =====
-- The life of the handlers: SinbohaRPCFactory (Sinboha/SinbohaRPCHandler.h), which makes and deletes them,
-- and SinbohaRPCProcessorFactory (Sinboha/gen-cpp/SinbohaRPC.cpp), which makes a processor for each
-- connection, with a shared pointer to a handler that gives it back when the processor is gone. A
-- handler is known by its number, in the order in which they are made.
pub mod Kept
use sinboha.Prelude.{
  ℕ, zero, suc, Bool, true, false, Option, none, some, List, [], ◌∷◌, ◌==◌, if◌then◌else◌, ◌>>=◌,
}

-- The handlers that exist.
pub record Handlers : Type 0 where
  pub next_handler : ℕ
  pub live : List ℕ

-- The pointer `iface_`.
pub record Processor : Type 0 where
  pub iface : Option ℕ

-- `dynamic_pointer_cast` finds a socket or not.
pub get_handler : Bool → Handlers → Handlers × Option ℕ
get_handler true s = (
  record { next_handler = suc s.next_handler; live = s.next_handler ∷ s.live },
  some s.next_handler,
)
get_handler false s = (s, none)

-- `delete` of what is not there has no result.
pub delete : ℕ → List ℕ → Option (List ℕ)
delete h [] = none
delete h (x ∷ xs) =
    let rest = delete h xs in if x == h then some xs else (rest >>= λ ys. some (x ∷ ys))

pub release_handler : Option ℕ → Handlers → Option Handlers
unfolding delete
release_handler none s = some s
release_handler (some h) s = delete h s.live >>= λ xs. some (record s { live = xs })

pub get_processor : Bool → Handlers → Handlers × Processor
get_processor is_socket s =
    let (s', handler) = get_handler is_socket s in (s', record { iface = handler })

-- What happens at the server of the Thrift library: a connection comes, over a socket or not, or the
-- one at this place ends, with its processor.
pub data ConnectionEvent : Type 0 where
  opens : Bool → ConnectionEvent
  closes : ℕ → ConnectionEvent

pub record Server : Type 0 where
  pub handlers : Handlers
  pub processors : List Processor

-- The processor at a place, and the others.
pub take_out : ℕ → List Processor → Option (Processor × List Processor)
take_out n [] = none
take_out zero (p ∷ ps) = some (p, ps)
take_out (suc n) (p ∷ ps) = take_out n ps >>= λ (q, qs). some (q, p ∷ qs)

-- The pointer of the processor gives the handler back, also if there is none.
pub drop_processor : Option (Processor × List Processor) → Server → Option Server
drop_processor none s = some s
drop_processor (some (p, ps)) s =
    release_handler p.iface s.handlers >>= λ hs. some (record { handlers = hs; processors = ps })

pub serve : ConnectionEvent → Server → Option Server
unfolding take_out drop_processor
serve (opens is_socket) s =
    let (hs, p) = get_processor is_socket s.handlers in
    some (record { handlers = hs; processors = p ∷ s.processors })
serve (closes n) s = drop_processor (take_out n s.processors) s

pub serve_all : List ConnectionEvent → Server → Option Server
serve_all [] s = some s
serve_all (e ∷ es) s = serve e s >>= serve_all es

-- The handlers of some processors.
abbrev with_handler : Option ℕ → List ℕ → List ℕ
with_handler none hs = hs
with_handler (some h) hs = h ∷ hs

abbrev pub handlers_of : List Processor → List ℕ
handlers_of [] = []
handlers_of (p ∷ ps) = with_handler p.iface (handlers_of ps)

-- Before the first connection, `n` handlers having been made and deleted.
abbrev pub new_server : ℕ → Server
new_server n = record { handlers = record { next_handler = n; live = [] }; processors = [] }

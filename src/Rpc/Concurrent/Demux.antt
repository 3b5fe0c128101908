-- ===== src/Rpc/Concurrent/Demux.antt =====
-- Callers of `CanYouActivateMe` that share a connection (SinbohaRPCConcurrentClient of
-- Sinboha/gen-cpp/SinbohaRPC.cpp), in any order in which they get the lock on reading.

use sinboha.Prelude.{ℕ, ◌<◌, ◌≡◌, ◌≢◌, refl, ap, Bool, List, [], ◌∷◌}
use sinboha.Prelude.Int.{ℤ}
use sinboha.NetClient.{Outcome, returned, threw}
use sinboha.Rpc.{Protocol, Run, done, ◌>>=◌}
use sinboha.Rpc.Delivery.{Delivers}
use sinboha.Rpc.Processor.{Handler}
use sinboha.Rpc.Concurrent.{SyncInfo, Round, waits, recv_can_you_activate_me_round}
use sinboha.Rpc.Concurrent.Rounds.{
  KeepsBegun, Reply, result_of, messages, At, before, inside, own_round, other_round, same_id-same,
  same_id-false,
}

module _ (P : Protocol) (S : SyncInfo) where
  open P use {In}
  open S use {State}

  -- What a round brings to its caller.
  abbrev note : ℤ → Round Bool → List (ℤ × Round Bool) → List (ℤ × Round Bool)
  note k waits xs = xs
  note k x xs = (k, x) ∷ xs

  -- Rounds of the callers with these numbers, in the order in which they get the lock; and what
  -- they bring.
  unfoldable pub rounds : ℕ → Bool → List ℤ → In → State → Run (List (ℤ × Round Bool))
  rounds n memory [] i q = done []
  rounds n memory (k ∷ ks) i q = do
    (x, i', q') ← recv_can_you_activate_me_round P S n memory k i q
    xs ← rounds n memory ks i' q'
    done (note k x xs)

-- Who gets which answer, when callers with these numbers get the lock one after the other and these
-- answers come: the one whose number the next answer has gets it, and any other gets nothing.
pub data IsGiven : List ℤ → List Reply → List (ℤ × Round Bool) → Type 0 where
  nobody : {rs : List Reply} → IsGiven [] rs []
  own :
      (k : ℤ) (o : Outcome Bool) {ks : List ℤ} {rs : List Reply} {xs : List (ℤ × Round Bool)}
      → IsGiven ks rs xs
      → IsGiven (k ∷ ks) ((k, o) ∷ rs) ((k, result_of o) ∷ xs)
  other :
      (k s : ℤ) (o : Outcome Bool) {ks : List ℤ} {rs : List Reply} {xs : List (ℤ × Round Bool)}
      → k ≢ s
      → IsGiven ks ((s, o) ∷ rs) xs
      → IsGiven (k ∷ ks) ((s, o) ∷ rs) xs

module _ {T : Type 0} (h : Handler T) where
  module _ (P : Protocol) (D : Delivers P) (S : SyncInfo) (K : KeepsBegun S) where
    open P use {In}
    open D use {deliver}
    open S use {State}

    note_result :
        (k : ℤ) (o : Outcome Bool) (xs : List (ℤ × Round Bool))
        → note P S k (result_of o) xs ≡ (k, result_of o) ∷ xs
    note_result k (returned b) xs = refl
    note_result k (threw x) xs = refl

    rounds_lem :
        (n : ℕ) (memory : Bool) {ks : List ℤ} {rs : List Reply} {xs : List (ℤ × Round Bool)}
        (i : In) (q : State)
        → 1 < n
        → At h P D S K rs i q
        → IsGiven ks rs xs
        → rounds P S n memory ks i q ≡ done xs
    unfolding rounds
    rounds_lem n memory i q l a nobody = refl
    rounds_lem n memory i q l a (own k o {ks} {rs} {xs} g) =
        let rest = rounds_lem n memory (deliver (messages h rs)) K.idle l (before rs) g in
        rw (own_round h P D S K n memory k k o rs i q l (same_id-same k) a, ◌>>=◌, rest)
          (ap done (note_result k o xs))
    rounds_lem n memory i q l a (other k s o {ks} {rs} {xs} differ g) =
        let rest = rounds_lem n memory _ _ l (inside s o rs) g in
        rw (other_round h P D S K n memory k s o rs i q (same_id-false k s differ) a, ◌>>=◌, rest)

    -- Let callers share a connection over which answers come, each as the processor writes it, for
    -- calls with any numbers and in any order, and let callers get the lock on reading in any order,
    -- as long as there is an answer to read. Then, with two rounds of the loop of the reader, a
    -- caller gets the next answer exactly if that has its number; so the answers are given out in the
    -- order in which they come, and nobody gets another's.
    pub rounds-IsGiven :
        (n : ℕ) (memory : Bool) {ks : List ℤ} {rs : List Reply} {xs : List (ℤ × Round Bool)}
        → 1 < n
        → IsGiven ks rs xs
        → rounds P S n memory ks (deliver (messages h rs)) K.idle ≡ done xs
    rounds-IsGiven n memory {ks} {rs} l g =
        rounds_lem n memory (deliver (messages h rs)) K.idle l (before rs) g

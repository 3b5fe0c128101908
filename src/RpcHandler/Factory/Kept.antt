-- ===== src/RpcHandler/Factory/Kept.antt =====
-- The handlers that exist and the connections that are open (SinbohaRPCFactory of
-- Sinboha/SinbohaRPCHandler.h, SinbohaRPCProcessorFactory of Sinboha/gen-cpp/SinbohaRPC.cpp).
use sinboha.Prelude.{
  ℕ, zero, suc, ◌<◌, ◌≤◌, ◌≡◌, refl, true, false, Option, none, some, List, [], ◌∷◌, arith, ◌==◌,
  ap, ◌>>=◌,
}
use sinboha.RpcHandler.Factory.{
  Handlers, Processor, get_handler, delete, release_handler, get_processor, ConnectionEvent, opens,
  closes, Server, take_out, drop_processor, serve, serve_all, handlers_of, new_server,
}

-- Below `n`, and descending.
abbrev Descends : ℕ → List ℕ → Type 0
Descends n [] = Unit
Descends n (x ∷ xs) = (x < n) × Descends x xs

Descends-weaken : (m n : ℕ) (xs : List ℕ) → m ≤ n → Descends m xs → Descends n xs
Descends-weaken m n [] l h = tt
Descends-weaken m n (x ∷ xs) l h = (omega (arith, h.0), h.1)

abbrev delete_of : Option ℕ → List ℕ → Option (List ℕ)
delete_of none hs = some hs
delete_of (some h) hs = delete h hs

abbrev IsBelow : ℕ → Option ℕ → Type 0
IsBelow n none = Unit
IsBelow n (some h) = h < n

-- What is left when a processor is taken out, and its handler deleted.
record IsOut (n : ℕ) (ps : List Processor) (q : Processor) (qs : List Processor) : Type 0 where
  descends : Descends n (handlers_of qs)
  below : IsBelow n q.iface
  deletes : delete_of q.iface (handlers_of ps) ≡ some (handlers_of qs)

abbrev IsTaken : ℕ → List Processor → Option (Processor × List Processor) → Type 0
IsTaken n ps none = Unit
IsTaken n ps (some (q, qs)) = IsOut n ps q qs

-- A processor before the one that is taken out, without a handler or with one.
before_without :
    (n : ℕ) (ps : List Processor) (o : Option (Processor × List Processor))
    → IsTaken n ps o
    → IsTaken n
        (record { iface = none } ∷ ps)
        (o >>= λ (q, qs). some (q, record { iface = none } ∷ qs))
before_without n ps none h = tt
before_without n ps (some (q, qs)) h = record {
  descends = h.descends;
  below = h.below;
  deletes = h.deletes;
}

prepend : ℕ → Option (List ℕ) → Option (List ℕ)
prepend x none = none
prepend x (some xs) = some (x ∷ xs)

IsBelow-weaken : (m n : ℕ) (o : Option ℕ) → m < n → IsBelow m o → IsBelow n o
IsBelow-weaken m n none l h = tt
IsBelow-weaken m n (some k) l h = omega (arith, l, h)

delete-before :
    (n x : ℕ) (o : Option ℕ) (hs ks : List ℕ)
    → IsBelow x o
    → delete_of o hs ≡ some ks
    → delete_of o (x ∷ hs) ≡ some (x ∷ ks)
unfolding delete prepend
delete-before n x none hs ks l e = ap (prepend x) e
delete-before n x (some h) hs ks l e =
    let other : x ≡ h → ⊥ = λ eq. omega (arith, l, eq) in
    let differs : (x == h) ≡ false = ground arith in rw (differs, e) refl

before_with :
    (n x : ℕ) (ps : List Processor) (o : Option (Processor × List Processor))
    → x < n
    → IsTaken x ps o
    → IsTaken n
        (record { iface = some x } ∷ ps)
        (o >>= λ (q, qs). some (q, record { iface = some x } ∷ qs))
before_with n x ps none l h = tt
before_with n x ps (some (q, qs)) l h = record {
  descends = (l, h.descends);
  below = IsBelow-weaken x n q.iface l h.below;
  deletes = delete-before n x q.iface (handlers_of ps) (handlers_of qs) h.below h.deletes;
}

take_first :
    (n : ℕ) (o : Option ℕ) (ps : List Processor)
    → Descends n (handlers_of (record { iface = o } ∷ ps))
    → IsTaken n (record { iface = o } ∷ ps) (some (record { iface = o }, ps))
unfolding delete
take_first n none ps d = record { descends = d; below = tt; deletes = refl }
take_first n (some x) ps d = record {
  descends = Descends-weaken x n (handlers_of ps) (omega (arith, d.0)) d.1;
  below = d.0;
  deletes = ground arith;
}

take_later :
    (k n : ℕ) (o : Option ℕ) (ps : List Processor)
    → ((m : ℕ) → Descends m (handlers_of ps) → IsTaken m ps (take_out k ps))
    → Descends n (handlers_of (record { iface = o } ∷ ps))
    → IsTaken n (record { iface = o } ∷ ps) (take_out (suc k) (record { iface = o } ∷ ps))
unfolding take_out
take_later k n none ps rest d = before_without n ps (take_out k ps) (rest n d)
take_later k n (some x) ps rest d = before_with n x ps (take_out k ps) d.0 (rest x d.1)

take_out-IsTaken :
    (k n : ℕ) (ps : List Processor) → Descends n (handlers_of ps) → IsTaken n ps (take_out k ps)
unfolding take_out
take_out-IsTaken k n [] d = tt
take_out-IsTaken zero n (p ∷ ps) d = take_first n p.iface ps d
take_out-IsTaken (suc k) n (p ∷ ps) d = take_later k n p.iface ps (λ m. take_out-IsTaken k m ps) d

-- The handlers that exist are those of the processors.
record IsKept (s : Server) : Type 0 where
  owned : s.handlers.live ≡ handlers_of s.processors
  descends : Descends s.handlers.next_handler (handlers_of s.processors)

abbrev AreKept : Option Server → Type 0
AreKept none = ⊥
AreKept (some s) = IsKept s

release_handler-delete_of :
    (o : Option ℕ) (s : Handlers) (xs : List ℕ)
    → delete_of o s.live ≡ some xs
    → release_handler o s ≡ some (record s { live = xs })
unfolding release_handler
release_handler-delete_of none s xs e = ground arith
release_handler-delete_of (some h) s xs e = rw e refl

drop-AreKept :
    (o : Option (Processor × List Processor)) (s : Server)
    → IsTaken s.handlers.next_handler s.processors o
    → IsKept s
    → AreKept (drop_processor o s)
unfolding drop_processor
drop-AreKept none s t h = h
drop-AreKept (some (p, ps)) s t h =
    rw (release_handler-delete_of p.iface s.handlers (handlers_of ps) (rw (h.owned) t.deletes))
      (record { owned = refl; descends = t.descends })

serve-AreKept : (e : ConnectionEvent) (s : Server) → IsKept s → AreKept (serve e s)
unfolding serve get_processor get_handler
serve-AreKept (opens true) s h = record {
  owned = ap (λ xs. s.handlers.next_handler ∷ xs) h.owned;
  descends = (omega arith, h.descends);
}
serve-AreKept (opens false) s h = record { owned = h.owned; descends = h.descends }
serve-AreKept (closes n) s h =
    drop-AreKept (take_out n s.processors) s
      (take_out-IsTaken n s.handlers.next_handler s.processors h.descends) h

serve_next :
    (es : List ConnectionEvent) (o : Option Server)
    → ((s : Server) → IsKept s → AreKept (serve_all es s))
    → AreKept o
    → AreKept (o >>= serve_all es)
serve_next es none rest h = h
serve_next es (some s) rest h = rest s h

serve_all-AreKept : (es : List ConnectionEvent) (s : Server) → IsKept s → AreKept (serve_all es s)
unfolding serve_all
serve_all-AreKept [] s h = h
serve_all-AreKept (e ∷ es) s h =
    serve_next es (serve e s) (λ s'. serve_all-AreKept es s') (serve-AreKept e s h)

kept_server :
    (o : Option Server)
    → AreKept o
    → (s : Server) × (o ≡ some s) × (s.handlers.live ≡ handlers_of s.processors)
kept_server none h = elim h [ ]
kept_server (some s) h = (s, refl, h.owned)

-- Whatever connections come and end, in whatever order, no handler is deleted that does not exist,
-- and the handlers that exist are those of the connections that are open: none is lost,
-- and none is deleted while a connection needs it.
pub serve_all-live :
    (es : List ConnectionEvent) (n : ℕ)
    → (s : Server) × (serve_all es (new_server n) ≡ some s)
      × (s.handlers.live ≡ handlers_of s.processors)
serve_all-live es n =
    kept_server (serve_all es (new_server n))
      (serve_all-AreKept es (new_server n) (record { owned = refl; descends = tt }))

-- ===== src/Pair/Processes/Places.antt =====
-- Two nodes and their calls (`Pair.Interleaving`) after something that one side has done.
use sinboha.Prelude.{◌≡◌, fun_ext, arith, if◌then◌else◌}
use sinboha.StatusRep.{StatusRep}
use sinboha.Pair.Interleaving.{
  Side, other, Channel, primary, secondary, same_side, Call, System, set_node, set_call,
}
use sinboha.Pair.Threads.Steps.{set_all}

abbrev pub choose_call : Channel → Call → Call → Call
choose_call primary k l = k
choose_call secondary k l = l

-- Both nodes, and the two calls of one side.
abbrev pub after : System → Side → StatusRep → StatusRep → Call → Call → System
after s p a b k l = record {
  node = λ q. if same_side p q then a else b;
  call = λ q c. if same_side p q then choose_call c k l else s.call q c;
}

pub same_system :
    (s t : System)
    → ((q : Side) → s.node q ≡ t.node q)
    → ((q : Side) (c : Channel) → s.call q c ≡ t.call q c)
    → s ≡ t
same_system s t n k =
    λ i. record { node = fun_ext n i; call = (fun_ext (λ q. fun_ext (λ c. k q c))) i }

pub after-same :
    (s : System) (p : Side)
    → after s p (s.node p) (s.node (other p)) (s.call p primary) (s.call p secondary) ≡ s
after-same s p =
    same_system (after s p (s.node p) (s.node (other p)) (s.call p primary) (s.call p secondary)) s
      (λ q. ground arith) (λ q c. ground arith)

pub after-primary :
    (s : System) (p : Side) (a b : StatusRep) (k : Call)
    → after s p a b k (s.call p secondary) ≡ set_all s p primary a b k
after-primary s p a b k =
    same_system (after s p a b k (s.call p secondary)) (set_all s p primary a b k)
      (λ q. ground arith) (λ q c. ground arith)

pub after-secondary :
    (s : System) (p : Side) (a b : StatusRep) (k : Call)
    → after s p a b (s.call p primary) k ≡ set_all s p secondary a b k
after-secondary s p a b k =
    same_system (after s p a b (s.call p primary) k) (set_all s p secondary a b k)
      (λ q. ground arith) (λ q c. ground arith)

-- Only the node of this side.
pub after-own :
    (s : System) (p : Side) (a : StatusRep)
    → after s p a (s.node (other p)) (s.call p primary) (s.call p secondary) ≡ set_node s p a
after-own s p a =
    same_system (after s p a (s.node (other p)) (s.call p primary) (s.call p secondary))
      (set_node s p a) (λ q. ground arith) (λ q c. ground arith)

pub after-other :
    (s : System) (p : Side) (b : StatusRep)
    → after s p (s.node p) b (s.call p primary) (s.call p secondary) ≡ set_node s (other p) b
after-other s p b =
    same_system (after s p (s.node p) b (s.call p primary) (s.call p secondary))
      (set_node s (other p) b) (λ q. ground arith) (λ q c. ground arith)

-- Only the calls of this side.
pub after-calls :
    (s : System) (p : Side) (k l : Call)
    → after s p (s.node p) (s.node (other p)) k l ≡ set_call (set_call s p primary k) p secondary l
after-calls s p k l =
    same_system (after s p (s.node p) (s.node (other p)) k l)
      (set_call (set_call s p primary k) p secondary l) (λ q. ground arith) (λ q c. ground arith)

pub after-equal :
    (s : System) (p : Side) {a a' b b' : StatusRep} {k k' l l' : Call}
    → a ≡ a'
    → b ≡ b'
    → k ≡ k'
    → l ≡ l'
    → after s p a b k l ≡ after s p a' b' k' l'
after-equal s p ea eb ek el = λ i. after s p (ea i) (eb i) (ek i) (el i)

-- ===== src/StatusRep/Names.antt =====
-- Which statuses a node can have, and which its callback hears of (Sinboha/SinbohaImp.cpp).
use sinboha.Prelude.{List, [], ◌∷◌, ◌++◌, arith}
use sinboha.Types.{IsNamed}
use sinboha.StatusRep.{CallbackCall, on_status_change, on_receive_data, StatusRep}
use sinboha.StatusRep.Changes.{
  Method, ask, answered, switched, registered, unregistered, received, split_found, perform,
  perform_all, IsSettled,
}

pub perform-IsNamed :
    (m : Method) (r : StatusRep) → IsNamed r.status → IsNamed (perform m r).0.status
unfolding perform
perform-IsNamed m r h = ground arith

pub perform_all-IsNamed :
    (ms : List Method) (r : StatusRep) → IsNamed r.status → IsNamed (perform_all ms r).0.status
unfolding perform_all
perform_all-IsNamed [] r h = h
perform_all-IsNamed (m ∷ ms) r h = perform_all-IsNamed ms (perform m r).0 (perform-IsNamed m r h)

-- The callback hears of no status but active and standby.
abbrev pub AllSettled : List CallbackCall → Type 0
AllSettled [] = Unit
AllSettled (on_status_change c t ∷ calls) = IsSettled t × AllSettled calls
AllSettled (on_receive_data c b ∷ calls) = AllSettled calls

AllSettled-append :
    (xs ys : List CallbackCall) → AllSettled xs → AllSettled ys → AllSettled (xs ++ ys)
AllSettled-append [] ys h k = k
AllSettled-append (on_status_change c t ∷ xs) ys h k = (h.0, AllSettled-append xs ys h.1 k)
AllSettled-append (on_receive_data c b ∷ xs) ys h k = AllSettled-append xs ys h k

perform-AllSettled : (m : Method) (r : StatusRep) → AllSettled (perform m r).1
unfolding perform
perform-AllSettled (ask now t s) r = tt
perform-AllSettled (answered live now b) r = ground arith
perform-AllSettled (switched now) r = ground arith
perform-AllSettled (registered c) r = tt
perform-AllSettled unregistered r = tt
perform-AllSettled (received b) r = ground arith
perform-AllSettled (split_found now) r = ground arith

pub perform_all-AllSettled : (ms : List Method) (r : StatusRep) → AllSettled (perform_all ms r).1
unfolding perform_all
perform_all-AllSettled [] r = tt
perform_all-AllSettled (m ∷ ms) r =
    AllSettled-append (perform m r).1 (perform_all ms (perform m r).0).1 (perform-AllSettled m r)
      (perform_all-AllSettled ms (perform m r).0)

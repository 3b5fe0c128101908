-- ===== src/Process/Names.antt =====
-- Which statuses a node can have in its whole process (Sinboha/SinbohaImp.cpp, SinbohaRPCHandler.h),
-- whatever number its peer sends as a status.
use sinboha.Prelude.{ℕ, List, sym, subst}
use sinboha.Types.{IsNamed}
use sinboha.StatusRep.{StatusRep, CallbackCall}
use sinboha.StatusRep.Names.{AllSettled, perform_all-IsNamed, perform_all-AllSettled}
use sinboha.NetClient.{Remote}
use sinboha.Process.{Process, Event, happen_all}
use sinboha.Process.Methods.{all_methods, happen_all-perform_all}

module _ (R : Remote) (ticks : ℕ) where
  -- Whatever happens in a process whose node has a status with a name, whatever its peer sends and
  -- the library does, the node has a status with a name, and its callback hears of no status but
  -- active and standby.
  pub happen_all-IsNamed :
      (es : List (Event R)) (p : Process R)
      → IsNamed p.imp.status.status
      → let (p', calls) = happen_all R ticks es p in IsNamed p'.imp.status.status × AllSettled calls
  happen_all-IsNamed es p h =
      let ms = all_methods R ticks es p in
      let same = sym (happen_all-perform_all R ticks es p) in
      (
        subst (λ (x : StatusRep × List CallbackCall). IsNamed x.0.status) same
            (perform_all-IsNamed ms p.imp.status h),
        subst (λ (x : StatusRep × List CallbackCall). AllSettled x.1) same
            (perform_all-AllSettled ms p.imp.status),
      )

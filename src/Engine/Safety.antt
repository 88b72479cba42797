-- ===== src/Engine/Safety.antt =====
-- What holds of an engine after any run (engine.cpp:169-301 and 546-827).
use d3b.Base.{ℕ, ◌≤◌, ◌≡◌, refl, List, String, Result, throws, Error, none, find, subst, arith, ◌≢◌}
use d3b.Engine.{Engine, new_engine}
use d3b.Engine.Steps.{Next, Step, calls, works, Reach, here, next}
use d3b.Engine.Status.{IsPlaced, count, queued}
use d3b.Engine.Status.Calls.{Call-IsPlaced}
use d3b.Engine.Status.Held.{IsBenign, Fine}
use d3b.Engine.Status.Works.{Next-Fine}

pub new_engine-IsPlaced : (ss vs : List String) → IsPlaced (new_engine ss vs)
unfolding new_engine find count queued
new_engine-IsPlaced ss vs = record {
  placed = λ j. (refl, refl, refl);
  fresh = λ j h. refl;
  typed = tt;
  busy_type = tt;
  fetched = λ t g h. cc;
}

pub Step-IsPlaced : {e e' : Engine} → Step e e' → IsPlaced e → IsPlaced e'
Step-IsPlaced (calls c) v = Call-IsPlaced c v
Step-IsPlaced {e} (works r n h) v = subst (Fine IsPlaced) h (Next-Fine e n v)

pub Reach-IsPlaced : {d e : Engine} → Reach d e → IsPlaced d → IsPlaced e
Reach-IsPlaced here v = v
Reach-IsPlaced (next r s) v = Step-IsPlaced s (Reach-IsPlaced r v)

-- After any run of an engine in which no submitted transaction is rolled back, from a start where every transaction stands at its place, as a new
-- engine does, the closure fails in its next step only for a storage that is not there, or for a
-- mutation, a constraint or an answer of no legal type: it never meets an illegal transaction, a
-- failed assertion, a submitted transaction that is gone, or a dangling pointer.
pub Reach-Next_safe :
    (d e : Engine) (r : Result Engine) (x : Error)
    → IsPlaced d
    → Reach d e
    → Next e r
    → r ≡ throws x
    → IsBenign x
Reach-Next_safe d e r x v reach n h =
    subst (Fine IsPlaced) h (Next-Fine e n (Reach-IsPlaced reach v))

-- After any run of an engine in which no submitted transaction is rolled back, from a start where
-- every transaction stands at its place, each transaction that counts as submitted is active, and is in the list once.
pub Reach-submitted :
    (d e : Engine) (id : ℕ)
    → IsPlaced d
    → Reach d e
    → 1 ≤ count id e.submitted_transactions
    → (find id e.active_transactions ≢ none) × (count id e.submitted_transactions ≡ 1)
Reach-submitted d e id v reach h =
    let p = (Reach-IsPlaced reach v).placed id in (λ n. ground (arith, p, n), ground (arith, p))

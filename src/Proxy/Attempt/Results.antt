-- ===== src/Proxy/Attempt/Results.antt =====
-- What a call of `forward_once` can come to.
use Prim.Native.String.{String}
use l7_proxy.Base.{ℕ, Option, none, some}
use l7_proxy.Http.{Http, Answer, responded, broken, elapsed}
use l7_proxy.Errors.{
  upstream_failure, upstream_timeout, Outcome, ok, err, panicked, ◌>>=◌, or_err, unwrap,
}
use l7_proxy.Proxy.Headers.{normalize, add_forwarded_for}
use l7_proxy.Proxy.World.{Env}
use l7_proxy.Proxy.Attempt.{Plan, received, forward_once}

pub data IsAnswer {A : Type 0} : Outcome A → Type 0 where
  is_ok : (a : A) → IsAnswer (ok a)
  is_failure : IsAnswer (err upstream_failure)
  is_timeout : IsAnswer (err upstream_timeout)
  is_panic : IsAnswer panicked

IsAnswer-bind :
    {A B : Type 0} {x : Outcome A} {k : A → Outcome B}
    → IsAnswer x
    → ((a : A) → IsAnswer (k a))
    → IsAnswer (x >>= k)
IsAnswer-bind (is_ok a) c = c a
IsAnswer-bind is_failure c = is_failure
IsAnswer-bind is_timeout c = is_timeout
IsAnswer-bind is_panic c = is_panic

IsAnswer-unwrap : {A : Type 0} (o : Option A) → IsAnswer (unwrap o)
IsAnswer-unwrap none = is_panic
IsAnswer-unwrap (some a) = is_ok a

IsAnswer-or_err : {A : Type 0} (o : Option A) → IsAnswer (or_err o upstream_failure)
IsAnswer-or_err none = is_failure
IsAnswer-or_err (some a) = is_ok a

module _ {H : Http} {F : Type 0} (env : Env H F) (plan : Plan H) where
  add_forwarded_for-IsAnswer :
      (client : Option String) (m : H.HeaderMap) → IsAnswer (add_forwarded_for H client m)
  unfolding add_forwarded_for
  add_forwarded_for-IsAnswer none m = is_ok m
  add_forwarded_for-IsAnswer (some ip) m = IsAnswer-bind (IsAnswer-unwrap _) (λ v. is_ok _)

  normalize-IsAnswer :
      (m : H.HeaderMap) (id : String) (client : Option String) → IsAnswer (normalize H m id client)
  unfolding normalize
  normalize-IsAnswer m id client =
      IsAnswer-bind (IsAnswer-unwrap _)
        (λ v. IsAnswer-bind (add_forwarded_for-IsAnswer client _) (λ w. is_ok _))

  received-IsAnswer : (a : Answer H) → IsAnswer (received env plan a)
  unfolding received
  received-IsAnswer (responded resp) = is_ok _
  received-IsAnswer broken = is_failure
  received-IsAnswer elapsed = is_timeout

  pub forward_once-IsAnswer : (n : ℕ) (u : String) → IsAnswer (forward_once env plan n u)
  unfolding forward_once
  forward_once-IsAnswer n u =
      IsAnswer-bind (IsAnswer-or_err _)
        (λ uri. IsAnswer-bind (normalize-IsAnswer _ _ _) (λ m. received-IsAnswer _))

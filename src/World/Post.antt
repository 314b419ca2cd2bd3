-- ===== src/World/Post.antt =====
-- Postconditions of actions: one predicate for a returned value, one for an error, and a rule for
-- each way to build an action.
use expire_share_api.Prelude.{◌≡◌, refl, arith}
use expire_share_api.Domain.{Error}
use expire_share_api.World.{
  World, Env, Result, ok, err, Action, Call, call, on_error, unless_success, lift, ◌>>=◌,
}

abbrev pub Cases :
    {A : Type 0} → (A → World → Type 0) → (Error → World → Type 0) → Result A × World → Type 0
Cases Q E (ok a, w) = Q a w
Cases Q E (err e, w) = E e w

pub record Post {A : Type 0} (Q : A → World → Type 0) (E : Error → World → Type 0)
    (x : Result A × World) : Type 0 where
  pub holds : Cases Q E x

module _ {A : Type 0} {Q Q' : A → World → Type 0} {E E' : Error → World → Type 0} where
  pub Post-mono :
      (x : Result A × World)
      → ((a : A) (w : World) → Q a w → Q' a w)
      → ((e : Error) (w : World) → E e w → E' e w)
      → Post Q E x
      → Post Q' E' x
  Post-mono (ok a, w) q e h = record { holds = q a w h.holds }
  Post-mono (err x, w) q e h = record { holds = e x w h.holds }

module _ {A : Type 0} {Q : A → World → Type 0} {E : Error → World → Type 0} (env : Env)
    (w : World) where
  on_error-cases :
      (f : Error → Error) (x : Result A × World)
      → Post Q (λ e w'. E (f e) w') x
      → Post Q E (on_error f (λ _ _. x) env w)
  unfolding ◌>>=◌
  on_error-cases f (ok a, w') h = record { holds = h.holds }
  on_error-cases f (err e, w') h = record { holds = h.holds }

  pub Post-on_error :
      (f : Error → Error) (m : Action A)
      → Post Q (λ e w'. E (f e) w') (m env w)
      → Post Q E (on_error f m env w)
  unfolding ◌>>=◌
  Post-on_error f m h = on_error-cases f (m env w) h

  unless_success-cases :
      (undo : World → World) (x : Result A × World)
      → Post Q (λ e w'. E e (undo w')) x
      → Post Q E (unless_success undo (λ _ _. x) env w)
  unfolding ◌>>=◌
  unless_success-cases undo (ok a, w') h = record { holds = h.holds }
  unless_success-cases undo (err e, w') h = record { holds = h.holds }

  pub Post-unless_success :
      (undo : World → World) (m : Action A)
      → Post Q (λ e w'. E e (undo w')) (m env w)
      → Post Q E (unless_success undo m env w)
  unfolding ◌>>=◌
  Post-unless_success undo m h = unless_success-cases undo (m env w) h

  pub Post-lift :
      (r : Result A)
      → ((a : A) → r ≡ ok a → Q a w)
      → ((e : Error) → r ≡ err e → E e w)
      → Post Q E (lift r env w)
  unfolding ◌>>=◌
  Post-lift (ok a) q e = record { holds = q a refl }
  Post-lift (err x) q e = record { holds = e x refl }

module _ {A B : Type 0} {Q : A → World → Type 0} {R : B → World → Type 0}
    {E E' : Error → World → Type 0} (env : Env) (w : World) where
  bind-cases :
      (x : Result A × World) (f : A → Action B)
      → Post Q E x
      → ((a : A) (w' : World) → Q a w' → Post R E' (f a env w'))
      → ((e : Error) (w' : World) → E e w' → E' e w')
      → Post R E' (◌>>=◌ (λ _ _. x) f env w)
  unfolding ◌>>=◌
  bind-cases (ok a, w') f h k fail = k a w' h.holds
  bind-cases (err e, w') f h k fail = record { holds = fail e w' h.holds }

  pub Post-bind :
      (m : Action A) (f : A → Action B)
      → Post Q E (m env w)
      → ((a : A) (w' : World) → Q a w' → Post R E' (f a env w'))
      → ((e : Error) (w' : World) → E e w' → E' e w')
      → Post R E' (◌>>=◌ m f env w)
  unfolding ◌>>=◌
  Post-bind m f h k fail = bind-cases (m env w) f h k fail

-- An action that leaves the state alone when it fails.
pub Post-call :
    (c : Call) (env : Env) (w : World) → Post (λ _ w'. w' ≡ w) (λ e w'. w' ≡ w) (call c env w)
unfolding ◌>>=◌
Post-call c env w = record { holds = ground arith }

-- The rule for `on_error` where what holds after an error does not depend on its text.
pub Post-rewrap :
    {A : Type 0} {Q : A → World → Type 0} {F : World → Type 0} (env : Env) (w : World)
    (f : Error → Error) (m : Action A)
    → Post Q (λ _ v. F v) (m env w)
    → Post Q (λ _ v. F v) (on_error f m env w)
Post-rewrap env w f m h = Post-on_error env w f m h

pub Post-both :
    {A : Type 0} {Q Q' : A → World → Type 0} {E E' : Error → World → Type 0} (x : Result A × World)
    → Post Q E x
    → Post Q' E' x
    → Post (λ a w. Q a w × Q' a w) (λ e w. E e w × E' e w) x
Post-both (ok a, w) h k = record { holds = (h.holds, k.holds) }
Post-both (err e, w) h k = record { holds = (h.holds, k.holds) }

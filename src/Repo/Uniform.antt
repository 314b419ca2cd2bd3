-- ===== src/Repo/Uniform.antt =====
-- Actions that answer the same whatever the order of the table's rows: a rule for each way to
-- build an action, and the statements of files.go.
use mathlib.Core.List.{Permᴰ}
use expire_share_api.Prelude.{
  Bool, true, false, Option, none, some, List, ◌≡◌, refl, sym, ap, if◌then◌else◌, ◌⊎◌, inl, inr,
  ◌-◌,
}
use expire_share_api.Domain.{File, Error}
use expire_share_api.World.{
  Platform, Env, World, Call, Fault, Result, ok, err, Action, Done, pure, raise, lift, call,
  on_error, unless_success, rolled_back, close_file, error_of, ◌>>=◌,
}
use expire_share_api.Repo.Order.{Distinct}

module _ (p : Platform) where
  -- The rows of one table in two orders.
  pub record SameRows (rows rows' : List File) : Type 0 where
    pub perm : Permᴰ rows rows'
    pub distinct : Distinct p rows

  abbrev pub SameTx : Option (List File) → Option (List File) → Type 0
  SameTx none none = Unit
  SameTx (some r) (some r') = SameRows r r'
  SameTx none (some r') = ⊥
  SameTx (some r) none = ⊥

  pub SameTx-cases :
      (t t' : Option (List File))
      → SameTx t t'
      → ((t ≡ none) × (t' ≡ none))
        ⊎ ((r : List File) × (r' : List File) × (t ≡ some r) × (t' ≡ some r') × SameRows r r')
  SameTx-cases none none s = inl (refl, refl)
  SameTx-cases (some r) (some r') s = inr (r, r', refl, refl, s)
  SameTx-cases none (some r') s = elim s [ ]
  SameTx-cases (some r) none s = elim s [ ]

  pub kept :
      (b : Bool) {r r' o o' : List File}
      → SameRows r r'
      → SameRows o o'
      → SameRows (if b then r else o) (if b then r' else o')
  kept true q s = q
  kept false q s = s

  -- Two states that differ in the order of rows at most.
  pub record Same (w w' : World) : Type 0 where
    pub rows : SameRows w.rows w'.rows
    pub tx : SameTx w.tx w'.tx
    pub folders : w.folders ≡ w'.folders
    pub open_files : w.open_files ≡ w'.open_files

  pub record Agree {A : Type 0} (x x' : Result A × World) : Type 0 where
    pub value : x.0 ≡ x'.0
    pub state : Same x.1 x'.1

  -- An action whose answer does not depend on the order, and which leaves the same rows.
  abbrev pub Uniform : {A : Type 0} → Action A → Type 0
  Uniform m = (env : Env) (w w' : World) → Same w w' → Agree (m env w) (m env w')

  module _ {A B : Type 0} (env : Env) (w w' : World) (f : A → Action B)
      (k : (a : A) → Uniform (f a)) where
    bind-cases :
        (x x' : Result A × World)
        → x.0 ≡ x'.0
        → Same x.1 x'.1
        → Agree (◌>>=◌ (λ _ _. x) f env w) (◌>>=◌ (λ _ _. x') f env w')
    unfolding ◌>>=◌
    bind-cases (ok a, u) (r', u') e s = rw (sym e) (k a env u u' s)
    bind-cases (err a, u) (r', u') e s = rw (sym e) (record { value = refl; state = s })

  pub Uniform-bind :
      {A B : Type 0} {m : Action A} {f : A → Action B}
      → Uniform m
      → ((a : A) → Uniform (f a))
      → Uniform (m >>= f)
  unfolding ◌>>=◌
  Uniform-bind {m = m} {f = f} h k env w w' s =
      let a = h env w w' s in bind-cases env w w' f k (m env w) (m env w') a.value a.state

  module _ {A : Type 0} where
    pub Uniform-pure : (a : A) → Uniform (pure a)
    unfolding ◌>>=◌
    Uniform-pure a env w w' s = record { value = refl; state = s }

    pub Uniform-raise : (e : Error) → Uniform {A = A} (raise e)
    unfolding ◌>>=◌
    Uniform-raise e env w w' s = record { value = refl; state = s }

    pub Uniform-lift : (r : Result A) → Uniform (lift r)
    unfolding ◌>>=◌
    Uniform-lift r env w w' s = record { value = refl; state = s }

    on_error-cases :
        (f : Error → Error) (env : Env) (w w' : World) (x x' : Result A × World)
        → x.0 ≡ x'.0
        → Same x.1 x'.1
        → Agree (on_error f (λ _ _. x) env w) (on_error f (λ _ _. x') env w')
    unfolding ◌>>=◌
    on_error-cases f env w w' (ok a, u) (r', u') e s =
        rw (sym e) (record { value = refl; state = s })
    on_error-cases f env w w' (err a, u) (r', u') e s =
        rw (sym e) (record { value = refl; state = s })

    pub Uniform-on_error : (f : Error → Error) {m : Action A} → Uniform m → Uniform (on_error f m)
    unfolding ◌>>=◌
    Uniform-on_error f {m} h env w w' s =
        let a = h env w w' s in on_error-cases f env w w' (m env w) (m env w') a.value a.state

    module _ (undo : World → World)
        (back : (u u' : World) → Same u u' → Same (undo u) (undo u')) where
      unless_success-cases :
          (env : Env) (w w' : World) (x x' : Result A × World)
          → x.0 ≡ x'.0
          → Same x.1 x'.1
          → Agree (unless_success undo (λ _ _. x) env w) (unless_success undo (λ _ _. x') env w')
      unfolding ◌>>=◌
      unless_success-cases env w w' (ok a, u) (r', u') e s =
          rw (sym e) (record { value = refl; state = s })
      unless_success-cases env w w' (err a, u) (r', u') e s =
          rw (sym e) (record { value = refl; state = back u u' s })

      pub Uniform-unless_success : {m : Action A} → Uniform m → Uniform (unless_success undo m)
      unfolding ◌>>=◌
      Uniform-unless_success {m} h env w w' s =
          let a = h env w w' s in unless_success-cases env w w' (m env w) (m env w') a.value a.state

  pub Same-rolled_back : (u u' : World) → Same u u' → Same (rolled_back u) (rolled_back u')
  Same-rolled_back u u' s = record {
    rows = s.rows;
    tx = tt;
    folders = s.folders;
    open_files = s.open_files;
  }

  pub Same-close_file : (u u' : World) → Same u u' → Same (close_file u) (close_file u')
  Same-close_file u u' s = record {
    rows = s.rows;
    tx = s.tx;
    folders = s.folders;
    open_files = ap (λ n. n - 1) s.open_files;
  }

  call-cases :
      (o : Option Fault) (w w' : World)
      → Same w w'
      → Agree {A = Done}
          (elim o [ none ↦ (ok tt, w) | some f ↦ (err (error_of f), w) ])
          (elim o [ none ↦ (ok tt, w') | some f ↦ (err (error_of f), w') ])
  call-cases none w w' s = record { value = refl; state = s }
  call-cases (some f) w w' s = record { value = refl; state = s }

  pub Uniform-call : (c : Call) → Uniform (call c)
  unfolding ◌>>=◌
  Uniform-call c env w w' s = call-cases (env.fault c) w w' s

  pub Agree-of :
      {A : Type 0} {x x' : Result A × World} (y y' : Result A × World)
      → x ≡ y
      → x' ≡ y'
      → Agree y y'
      → Agree x x'
  Agree-of y y' e e' a = rw (e, e') a

  pub same_rows :
      {w w' : World} {r r' : List File} {t t' : Option (List File)}
      → Same w w'
      → SameRows r r'
      → SameTx t t'
      → Same (record w { rows = r; tx = t }) (record w' { rows = r'; tx = t' })
  same_rows s q q' = record { rows = q; tx = q'; folders = s.folders; open_files = s.open_files }

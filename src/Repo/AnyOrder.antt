-- ===== src/Repo/AnyOrder.antt =====
-- The statements of files.go on a table in any order.
use mathlib.Core.List.Permᴰ
use expire_share_api.Prelude.{
  ℕ, ℤ, Bool, true, false, not, String, none, some, List, [], ◌∷◌, ◌++◌, ◌≡◌, refl, sym, ◌∙◌, ap,
  arith, keep, if◌then◌else◌, eq_iff, eqb, eqb_ℤ, is_zero, inl, inr, Option-cases,
}
use expire_share_api.Domain.{File, AddFile}
use expire_share_api.World.{Platform, ok, Action}
use expire_share_api.Repo.{
  find_row, same_alias, is_live, set_downloads, new_row, insert_row, or_not_found, decrement_found,
  delete_live, get_file_by_alias, get_files_stat_by_user_id, add_file_tx,
  decrement_downloads_by_alias_tx, delete_file_tx,
}
use expire_share_api.Repo.Table.{row_at, row_at-append, row_at-set_downloads, row_at-keep}
use expire_share_api.Repo.Order.{
  Distinct, keep-Permᴰ, length-Permᴰ, sum_size-Permᴰ, set_downloads-Permᴰ, find_row-Permᴰ,
}
use expire_share_api.Repo.Transactions.{stat_of}
use expire_share_api.Repo.Uniform.{
  SameRows, Uniform, Uniform-bind, Uniform-pure, Uniform-raise, Uniform-lift, Uniform-on_error,
  Uniform-call,
}
use expire_share_api.Repo.Statements.{Uniform-query, Uniform-in_tx}

module _ (p : Platform) where
  Distinct-keep :
      (test : File → Bool) (rows : List File) → Distinct p rows → Distinct p (keep test rows)
  Distinct-keep test [] v = tt
  Distinct-keep test (f ∷ fs) v =
      ground (arith, Distinct-keep test fs v.1, row_at-keep p f.alias test fs)

  Distinct-set_downloads :
      (a : String) (n : ℤ) (rows : List File)
      → Distinct p rows
      → Distinct p (set_downloads (same_alias p a) n rows)
  Distinct-set_downloads a n [] v = tt
  Distinct-set_downloads a n (f ∷ fs) v =
      ground (arith, Distinct-set_downloads a n fs v.1, row_at-set_downloads p a f.alias n fs)

  Distinct-append :
      (rows : List File) (f : File)
      → Distinct p rows
      → row_at p f.alias rows ≡ none
      → Distinct p (rows ++ f ∷ [])
  Distinct-append [] f v h = (refl, tt)
  Distinct-append (g ∷ gs) f v h = ground (
    arith,
    Distinct-append gs f v.1,
    row_at-append p g.alias gs f,
    eq_iff (p.weight f.alias) (p.weight g.alias),
    eq_iff (p.weight g.alias) (p.weight f.alias),
  )

  module _ (now : ℕ) {rows rows' : List File} (s : SameRows p rows rows') where
    live-order : (a : String) → find_row (is_live p now a) rows ≡ find_row (is_live p now a) rows'
    live-order a = find_row-Permᴰ p a (is_live p now a) (λ f h. ground arith) s.perm s.distinct

    insert_row-new :
        (cmd : AddFile) (o : List File)
        → row_at p cmd.alias o ≡ none
        → insert_row p cmd now o ≡ (ok true, o ++ new_row p cmd now ∷ [])
    unfolding insert_row
    insert_row-new cmd o h = ground arith

    insert_row-taken :
        (cmd : AddFile) (o : List File) (g : File)
        → row_at p cmd.alias o ≡ some g
        → insert_row p cmd now o ≡ (ok false, o)
    unfolding insert_row
    insert_row-taken cmd o g h = ground arith

    insert_row-order :
        (cmd : AddFile)
        → ((insert_row p cmd now rows).0 ≡ (insert_row p cmd now rows').0)
          × SameRows p (insert_row p cmd now rows).1 (insert_row p cmd now rows').1
    insert_row-order cmd =
        let e = find_row-Permᴰ p cmd.alias (same_alias p cmd.alias) (λ f h. h) s.perm s.distinct in
        elim (Option-cases (find_row (same_alias p cmd.alias) rows)) [
          | inl h ↦
              rw (insert_row-new cmd rows h, insert_row-new cmd rows' (sym e ∙ h))
                (
                  refl,
                  record {
                    perm = Permᴰ.append_right (new_row p cmd now ∷ []) s.perm;
                    distinct = Distinct-append rows (new_row p cmd now) s.distinct h;
                  },
                )
          | inr (g, h) ↦
              rw (insert_row-taken cmd rows g h, insert_row-taken cmd rows' g (sym e ∙ h)) (refl, s)
        ]

  pub Uniform-get_file_by_alias : (a : String) → Uniform p (get_file_by_alias p a)
  unfolding get_file_by_alias
  Uniform-get_file_by_alias a =
      Uniform-bind p (Uniform-on_error p _ (Uniform-query p _ _ (λ now r r' s. live-order now s a)))
        (λ o. Uniform-lift p (or_not_found o))

  pub Uniform-get_files_stat : (user : ℤ) → Uniform p (get_files_stat_by_user_id user)
  unfolding get_files_stat_by_user_id
  Uniform-get_files_stat user = Uniform-on_error p _ (
      Uniform-query p _ (λ now rows. stat_of user rows)
        (λ now r r' s.
          let q = keep-Permᴰ (λ f. eqb_ℤ f.user_id user) s.perm in
          rw (length-Permᴰ q, sum_size-Permᴰ q) refl))

  Uniform-if :
      {A : Type 0} (b : Bool) {m n : Action A}
      → Uniform p m
      → Uniform p n
      → Uniform p (if b then m else n)
  Uniform-if true h k = h
  Uniform-if false h k = k

  pub Uniform-add_file_tx : (cmd : AddFile) → Uniform p (add_file_tx p cmd)
  unfolding add_file_tx
  Uniform-add_file_tx cmd =
      Uniform-bind p
        (Uniform-on_error p _ (Uniform-in_tx p _ _ (λ now r r' s. insert_row-order now s cmd)))
        (λ b. Uniform-if b (Uniform-on_error p _ (Uniform-call p _)) (Uniform-raise p _))

  Uniform-decrement_found : (a : String) (f : File) → Uniform p (decrement_found p a f)
  unfolding decrement_found
  Uniform-decrement_found a f = Uniform-if (is_zero f.downloads_left) (Uniform-raise p _) (
      Uniform-bind p
        (Uniform-on_error p _ (
          Uniform-in_tx p _ _ (λ now r r' s. (
            refl,
            record {
              perm = set_downloads-Permᴰ _ _ s.perm;
              distinct = Distinct-set_downloads a _ r s.distinct;
            },
          ))))
        (λ _. Uniform-pure p _))

  pub Uniform-decrement : (a : String) → Uniform p (decrement_downloads_by_alias_tx p a)
  unfolding decrement_downloads_by_alias_tx
  Uniform-decrement a =
      Uniform-bind p
        (Uniform-on_error p _ (Uniform-in_tx p _ _ (λ now r r' s. (ap ok (live-order now s a), s))))
        (λ o. Uniform-bind p (Uniform-lift p (or_not_found o)) (λ f. Uniform-decrement_found a f))

  pub Uniform-delete_file_tx : (a : String) → Uniform p (delete_file_tx p a)
  unfolding delete_file_tx delete_live
  Uniform-delete_file_tx a =
      Uniform-bind p
        (Uniform-on_error p _ (
          Uniform-in_tx p _ (delete_live p a) (λ now r r' s. (
            ap ok (length-Permᴰ (keep-Permᴰ (is_live p now a) s.perm)),
            record {
              perm = keep-Permᴰ (λ f. not (is_live p now a f)) s.perm;
              distinct = Distinct-keep (λ f. not (is_live p now a f)) r s.distinct;
            },
          ))))
        (λ n.
          Uniform-bind p (Uniform-on_error p _ (Uniform-call p _))
            (λ _. Uniform-if (eqb n 0) (Uniform-raise p _) (Uniform-pure p _)))

-- ===== src/Files/Overlap/Bounds.antt =====
-- Downloads that overlap: the table stays valid, and the counter never rises above its start.
use expire_share_api.Prelude.{
  Bool, eq_iff, [], ◌∷◌, set_phase, start, step, ℕ, zero, suc, ◌≤◌, ℤ, pos, pos_part, ltb_ℤ,
  pred_int16, true, not, String, Option, none, some, List, ◌≡◌, inl, inr, arith, eqb, length, keep,
  Bool-cases, Option-cases, negsuc,
}
use expire_share_api.Domain.{File}
use expire_share_api.World.{Platform}
use expire_share_api.Repo.{find_row, is_live, same_alias, set_downloads}
use expire_share_api.Repo.Table.{
  row_at-keep, row_at, IsValid, with_downloads, row_at-set_downloads, row_at-others,
  set_downloads-IsValid, keep-IsValid, find_live,
}
use expire_share_api.Files.Spending.{downloads_of, row_at-positive}
use expire_share_api.Files.Overlap.{
  Phase, refused, Shared, after_read, after_read-none, after_read-some, Step, read, end, fail,
  remove, Reaches, fresh, end_download, Seen, Bounded, same_itself, end_download-kept,
  end_download-missing, end_download-last,
}

module _ (p : Platform) (alias : String) where
  module _ (d : ℕ) where
    downloads_of-lowered :
        (n : ℤ) (o : Option File)
        → ltb_ℤ (pos 0) n ≡ true
        → pos_part n ≤ d
        → downloads_of (with_downloads (pred_int16 n) o) ≤ d
    downloads_of-lowered n none h k = omega arith
    downloads_of-lowered (pos zero) (some f) h k = omega arith
    downloads_of-lowered (pos (suc n)) (some f) h k = omega arith
    downloads_of-lowered (negsuc n) (some f) h k = ground arith

    end_download-Bounded :
        (now : ℕ) (n : ℤ) (rows : List File)
        → IsValid p rows
        → downloads_of (row_at p alias rows) ≤ d
        → (ltb_ℤ (pos 0) n ≡ true) × (pos_part n ≤ d)
        → IsValid p (end_download p alias now n rows).1
          × (downloads_of (row_at p alias (end_download p alias now n rows).1) ≤ d)
          × Seen p alias d (end_download p alias now n rows).0
    end_download-Bounded now n rows v c s = elim (Bool-cases (ltb_ℤ (pos 0) (pred_int16 n))) [
      | inl h ↦ rw (end_download-kept p alias now n rows h) (
        set_downloads-IsValid p alias (pred_int16 n) rows v h,
        rw (row_at-set_downloads p alias alias (pred_int16 n) rows, same_itself p alias)
            (downloads_of-lowered n (row_at p alias rows) s.0 s.1),
        tt,
      )
      | inr h ↦
          let left =
            length (
              keep (is_live p now alias)
                (set_downloads (same_alias p alias) (pred_int16 n) rows)) in
          elim (Bool-cases (eqb left 0)) [
            | inl z ↦ rw (end_download-missing p alias now n rows h (ground arith)) (v, c, tt)
            | inr z ↦ rw (end_download-last p alias now n rows v h (ground arith)) (
              keep-IsValid p (λ f. not (same_alias p alias f)) rows v,
              rw (row_at-others p alias alias rows, same_itself p alias) (omega arith),
              tt,
            )
          ]
    ]

    after_read-Seen :
        (now : ℕ) (rows : List File)
        → IsValid p rows
        → downloads_of (row_at p alias rows) ≤ d
        → Seen p alias d (after_read (find_row (is_live p now alias) rows))
    after_read-Seen now rows v c = elim (Option-cases (find_row (is_live p now alias) rows)) [
      | inl e ↦ rw (after_read-none _ e) tt
      | inr (f, e) ↦
          let here = (find_live p alias now rows f v e).0 in
          rw (after_read-some f _ e (row_at-positive p alias rows f v here))
            (row_at-positive p alias rows f v here, rw here at c)
    ]

    set_phase-Seen :
        (i : ℕ) (q : Phase) (phase : ℕ → Phase)
        → Seen p alias d q
        → ((j : ℕ) → Seen p alias d (phase j))
        → (j : ℕ) → Seen p alias d (set_phase i q phase j)
    set_phase-Seen i q phase h k j = elim (Bool-cases (eqb j i)) [
      | inl e ↦ rw e h
      | inr e ↦ rw e (k j)
    ]

    downloads_of-keep :
        (test : File → Bool) (rows : List File)
        → IsValid p rows
        → downloads_of (row_at p alias (keep test rows)) ≤ downloads_of (row_at p alias rows)
    downloads_of-keep test [] v = omega arith
    downloads_of-keep test (f ∷ fs) v = ground (
      arith,
      downloads_of-keep test fs v.2,
      row_at-keep p f.alias test fs,
      row_at-keep p alias test fs,
      eq_iff (p.weight f.alias) (p.weight alias),
    )

    pub Step-Bounded : {s t : Shared} → Step p alias s t → Bounded p alias d s → Bounded p alias d t
    Step-Bounded (read {s} i now w) b = record {
      valid = b.valid;
      counter = b.counter;
      seen = set_phase-Seen i _ s.phase (after_read-Seen now s.rows b.valid b.counter) b.seen;
    }
    Step-Bounded (end {s} i now n e) b =
        let a = end_download-Bounded now n s.rows b.valid b.counter (rw e at (b.seen i)) in
        record { valid = a.0; counter = a.1; seen = set_phase-Seen i _ s.phase a.2 b.seen }
    Step-Bounded (fail {s} i n e) b = record {
      valid = b.valid;
      counter = b.counter;
      seen = set_phase-Seen i refused s.phase tt b.seen;
    }
    Step-Bounded (remove {s} test) b = record {
      valid = keep-IsValid p test s.rows b.valid;
      counter = omega (arith, downloads_of-keep test s.rows b.valid, b.counter);
      seen = b.seen;
    }

    pub Reaches-Bounded :
        {s t : Shared} → Reaches p alias s t → Bounded p alias d s → Bounded p alias d t
    Reaches-Bounded start b = b
    Reaches-Bounded (step r e) b = Step-Bounded e (Reaches-Bounded r b)

  -- Whatever downloads of an alias run at once, in whatever order they read, write and fail, and
  -- whatever rows are deleted meanwhile, on a
  -- table that starts valid: it stays valid, and the alias never has more downloads left than it
  -- started with.
  pub overlapping-bounded :
      (rows : List File) (t : Shared)
      → IsValid p rows
      → Reaches p alias (fresh p alias rows) t
      → IsValid p t.rows
        × (downloads_of (row_at p alias t.rows) ≤ downloads_of (row_at p alias rows))
  overlapping-bounded rows t v r =
      let b =
        Reaches-Bounded (downloads_of (row_at p alias rows)) r
          (record { valid = v; counter = omega arith; seen = λ i. tt }) in
      (b.valid, b.counter)

-- ===== src/Files/Overlap/Last.antt =====
-- The last download of an alias: however the downloads overlap, one of them gets it.
use expire_share_api.Prelude.{
  set_phase, start, step, ℕ, zero, suc, ◌≤◌, ◌<◌, ℤ, pos, negsuc, pos_part, ltb_ℤ, pred_int16, true,
  false, String, Option, none, List, ◌≡◌, ◌≢◌, ◌⊎◌, inl, inr, refl, sym, ◌∙◌, ap, arith, eqb,
  length, keep, Bool-cases,
}
use expire_share_api.Domain.{File}
use expire_share_api.World.{Platform}
use expire_share_api.Repo.{find_row, is_live, same_alias, set_downloads}
use expire_share_api.Repo.Table.{row_at-keep, row_at, IsValid, absent, row_at-others, others}
use expire_share_api.Files.Spending.{downloads_of}
use expire_share_api.Files.Overlap.{
  Phase, has_read, served, refused, Shared, ends, end_download, after_read, Step, read, end, fail,
  remove, Reaches, fresh, Seen, Bounded, end_download-missing, end_download-last, same_itself,
}
use expire_share_api.Files.Overlap.Bounds.{Reaches-Bounded}

after_read-not_served : (o : Option File) → after_read o ≢ served
unfolding after_read
after_read-not_served o e = ground arith

one_left : (n : ℤ) → ltb_ℤ (pos 0) n ≡ true → pos_part n ≤ 1 → ltb_ℤ (pos 0) (pred_int16 n) ≡ false
one_left (pos zero) h k = ground arith
one_left (pos (suc n)) h k = ground arith
one_left (negsuc n) h k = ground arith

module _ (p : Platform) (alias : String) where
  -- No download was served, or one was, and the row is gone.
  abbrev Once : Shared → Type 0
  Once t =
      ((i : ℕ) → t.phase i ≢ served)
      ⊎ ((row_at p alias t.rows ≡ none) × (k : ℕ) × ((i : ℕ) → t.phase i ≡ served → i ≡ k))

  quiet :
      (t : Shared) (i : ℕ) (q : Phase)
      → q ≢ served
      → Once t
      → Once (record t { phase = set_phase i q t.phase })
  quiet t i q h (inl none_yet) = inl (λ j e. elim (Bool-cases (eqb j i)) [
    | inl z ↦ h (rw z at e)
    | inr z ↦ none_yet j (rw z at e)
  ])
  quiet t i q h (inr (gone, k, only)) = inr (
    gone,
    k,
    λ j e. elim (Bool-cases (eqb j i)) [
      | inl z ↦ absurd (h (rw z at e))
      | inr z ↦ only j (rw z at e)
    ],
  )

  module _ (s : Shared) (i now : ℕ) (n : ℤ) where
    abbrev hits : ℕ
    hits =
        length
          (keep (is_live p now alias) (set_downloads (same_alias p alias) (pred_int16 n) s.rows))

    -- The download that takes the row away is the first that is served.
    taken :
        0 < hits
        → Once s
        → Once (record { rows = others p alias s.rows; phase = set_phase i served s.phase })
    taken h (inl none_yet) = inr (
      rw (row_at-others p alias alias s.rows, same_itself p alias) refl,
      i,
      λ j e. elim (Bool-cases (eqb j i)) [
        | inl z ↦ ground arith
        | inr z ↦ absurd (none_yet j (rw z at e))
      ],
    )
    taken h (inr (gone, k, only)) =
        let none_left = (absent p alias (pred_int16 n) now s.rows gone).2 in
        absurd (ground (arith, ap length none_left))

    ended :
        (x : Phase × List File)
        → end_download p alias now n s.rows ≡ x
        → Once (record { rows = x.1; phase = set_phase i x.0 s.phase })
        → Once (ends p alias i now n s)
    ended x e h = rw e h

    ends-Once :
        IsValid p s.rows → Seen p alias 1 (has_read n) → Once s → Once (ends p alias i now n s)
    ends-Once v seen o =
        let last = one_left n seen.0 seen.1 in
        elim (Bool-cases (eqb hits 0)) [
          | inl z ↦
              ended _ (end_download-missing p alias now n s.rows last (ground arith))
                (quiet s i refused (λ e. ground arith) o)
          | inr z ↦
              ended _ (end_download-last p alias now n s.rows v last (ground arith))
                (taken (ground arith) o)
        ]

  Step-Once : {s t : Shared} → Step p alias s t → Bounded p alias 1 s → Once s → Once t
  Step-Once (read {s} i now w) b o =
      quiet s i _ (after_read-not_served (find_row (is_live p now alias) s.rows)) o
  Step-Once (end {s} i now n e) b o = ends-Once s i now n b.valid (rw e at (b.seen i)) o
  Step-Once (fail {s} i n e) b o = quiet s i refused (λ h. ground arith) o
  Step-Once (remove {s} test) b (inl none_yet) = inl none_yet
  Step-Once (remove {s} test) b (inr (gone, k, only)) =
      inr (row_at-keep p alias test s.rows gone, k, only)

  Reaches-Once : {s t : Shared} → Reaches p alias s t → Bounded p alias 1 s → Once s → Once t
  Reaches-Once start b o = o
  Reaches-Once (step r e) b o = Step-Once e (Reaches-Bounded p alias 1 r b) (Reaches-Once r b o)

  at_most_one : (t : Shared) (i j : ℕ) → Once t → t.phase i ≡ served → t.phase j ≡ served → i ≡ j
  at_most_one t i j (inl none_yet) a b = absurd (none_yet i a)
  at_most_one t i j (inr (gone, k, only)) a b = only i a ∙ sym (only j b)

  -- On a valid table where the alias has one download left: whatever downloads of it run at once,
  -- in whatever order they read, write and fail, and whatever rows are deleted meanwhile, no two of
  -- them are served.
  pub last_download-once :
      (rows : List File) (t : Shared) (i j : ℕ)
      → IsValid p rows
      → downloads_of (row_at p alias rows) ≡ 1
      → Reaches p alias (fresh p alias rows) t
      → t.phase i ≡ served
      → t.phase j ≡ served
      → i ≡ j
  last_download-once rows t i j v one r a b =
      let o =
        Reaches-Once r (record { valid = v; counter = omega (arith, one); seen = λ i. tt })
          (inl (λ i e. ground arith)) in
      at_most_one t i j o a b

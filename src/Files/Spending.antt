-- ===== src/Files/Spending.antt =====
-- The download counter: what each download takes from it.
use expire_share_api.Prelude.{
  ℕ, zero, suc, ◌+◌, String, Option, none, some, List, [], ◌∷◌, Bool, true, false, ◌≡◌, inl, inr,
  refl, sym, ap, ◌∙◌, arith, ◌==◌, eq_iff, ℤ, pos, negsuc, pos_part, pred_int16, if◌then◌else◌,
  Bool-cases,
}
use expire_share_api.Domain.{File, DownloadFile}
use expire_share_api.World.{World, Env, Platform}
use expire_share_api.Repo.{find_row}
use expire_share_api.Repo.Table.{
  row_at, same, IsValid, with_downloads, row_at-set_downloads, row_at-others, set_downloads-IsValid,
  keep-IsValid, delete_live_of_valid, find_live,
}
use expire_share_api.Files.Settled.{settled, has_more, Gone, counted, lowered, Settles}

abbrev pub spend_to : Bool → ℤ → Option File → Option File
spend_to true left o = with_downloads left o
spend_to false left o = none

abbrev pub spent : Option File → Option File
spent none = none
spent (some f) =
    spend_to (has_more (pred_int16 f.downloads_left)) (pred_int16 f.downloads_left) (some f)

-- The downloads that an alias has left.
abbrev pub downloads_of : Option File → ℕ
downloads_of none = 0
downloads_of (some f) = pos_part f.downloads_left

module _ (p : Platform) (cmd : DownloadFile) (env : Env) where
  settled-IsValid :
      (b : Bool) (left : ℤ) (rows : List File)
      → b ≡ has_more left
      → IsValid p rows
      → Gone p cmd env b left rows
      → IsValid p (settled p cmd env b left rows)
  settled-IsValid true left rows e v g = set_downloads-IsValid p cmd.alias left rows v (sym e)
  settled-IsValid false left rows e v g =
      rw (delete_live_of_valid p cmd.alias left _ rows v g) (keep-IsValid p _ rows v)

  row_at-settled :
      (b : Bool) (left : ℤ) (rows : List File) (a : String)
      → IsValid p rows
      → Gone p cmd env b left rows
      → row_at p a (settled p cmd env b left rows)
        ≡ (if same p cmd.alias a then spend_to b left (row_at p a rows) else row_at p a rows)
  row_at-settled true left rows a v g = row_at-set_downloads p cmd.alias a left rows
  row_at-settled false left rows a v g =
      rw (delete_live_of_valid p cmd.alias left _ rows v g) (row_at-others p cmd.alias a rows)

  row_at-cong :
      (a b : String) (rows : List File) → same p a b ≡ true → row_at p a rows ≡ row_at p b rows
  row_at-cong a b rows h =
      let e : p.weight a ≡ p.weight b = (eq_iff _ _).0 h in
      ap (λ x. find_row (λ f. p.weight f.alias == x) rows) e

  module _ (w : World) (v : IsValid p w.rows) where
    spends :
        (f : File) (a : String)
        → row_at p cmd.alias w.rows ≡ some f
        → (o : Option File)
        → o ≡ (
            if same p cmd.alias a
            then spend_to
                (has_more (pred_int16 f.downloads_left))
                (pred_int16 f.downloads_left)
                (row_at p a w.rows)
            else row_at p a w.rows)
        → o ≡ (if same p cmd.alias a then spent (row_at p a w.rows) else row_at p a w.rows)
    spends f a here o e = elim (Bool-cases (same p cmd.alias a)) [
      | inl yes_same ↦
          let there : row_at p a w.rows ≡ some f =
            sym (row_at-cong cmd.alias a w.rows yes_same) ∙ here in
          rw (e, yes_same, there)
      | inr not_same ↦ rw (e, not_same)
    ]

    -- What the table holds for each alias after the counter of a row went down.
    pub lowered-refines :
        (f : File) (a : String)
        → counted p cmd env w.rows ≡ some f
        → Settles p cmd env w.rows
        → IsValid p (lowered p cmd env w.rows)
          × (row_at p a (lowered p cmd env w.rows)
              ≡ (if same p cmd.alias a then spent (row_at p a w.rows) else row_at p a w.rows))
    lowered-refines f a found s =
        let left = pred_int16 f.downloads_left in
        let g : Gone p cmd env (has_more left) left w.rows = rw found at s in
        let live = find_live p cmd.alias _ w.rows f v found in
        rw found (
          settled-IsValid (has_more left) left w.rows refl v g,
          spends f a live.0 _ (row_at-settled (has_more left) left w.rows a v g),
        )

pub row_at-positive :
    (p : Platform) (a : String) (rows : List File) (f : File)
    → IsValid p rows
    → row_at p a rows ≡ some f
    → has_more f.downloads_left ≡ true
row_at-positive p a [] f v h = cc
row_at-positive p a (g ∷ gs) f v h = ground (arith, row_at-positive p a gs f v.2)

downloads_of-spend_to :
    (d : ℤ) (f : File)
    → has_more d ≡ true
    → downloads_of (spend_to (has_more (pred_int16 d)) (pred_int16 d) (some f)) + 1 ≡ pos_part d
downloads_of-spend_to (pos zero) f h = ground arith
downloads_of-spend_to (pos (suc n)) f h = ground arith
downloads_of-spend_to (negsuc n) f h = ground arith

pub downloads_of-spent :
    (f : File)
    → has_more f.downloads_left ≡ true
    → downloads_of (spent (some f)) + 1 ≡ downloads_of (some f)
downloads_of-spent f h = downloads_of-spend_to f.downloads_left f h

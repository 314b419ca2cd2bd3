-- ===== src/Files/Overlap/Alone.antt =====
-- A download that runs alone takes the two steps of Overlap: its SELECT and its end.
use expire_share_api.Prelude.{
  String, pos, ltb_ℤ, is_zero, pred_int16, true, false, not, none, some, List, ◌≡◌, inl, inr, refl,
  arith, eqb, length, keep, Bool-cases, Option-cases,
}
use expire_share_api.Domain.{File, DownloadFile, Error, sentinel, file_not_found, no_downloads_left}
use expire_share_api.World.{
  World, Env, Platform, Call, Result, ok, err, select_downloads, delete_file, ◌>>=◌,
}
use expire_share_api.Storage.{Opened, remove_all}
use expire_share_api.Storage.Calm.{delete-calm}
use expire_share_api.Repo.{find_row, is_live, same_alias, set_downloads}
use expire_share_api.Repo.Calm.{
  decrement-calm, decrement-missing, decrement-empty, delete_file_tx-calm, delete_file_tx-missing,
  commit_work-calm,
}
use expire_share_api.Files.{unless_ctx, count_download, keep_file, drop_file}
use expire_share_api.Files.Overlap.{Phase, has_read, served, refused, after_read, end_download}

-- How the answer of count_download goes with the end of a download of Overlap.
abbrev pub Answers : Opened → Phase → Result Opened → Type 0
Answers o served r = r ≡ ok o
Answers o refused r = (e : Error) × (r ≡ err e)
Answers o _ r = ⊥

module _ (p : Platform) (cmd : DownloadFile) (o : Opened) (env : Env)
    (calm : (c : Call) → env.fault c ≡ none) (w : World) (rows : List File)
    (opened : w.tx ≡ some rows) where
  kept :
      (f : File)
      → find_row (is_live p (env.now select_downloads) cmd.alias) rows ≡ some f
      → is_zero f.downloads_left ≡ false
      → ltb_ℤ (pos 0) (pred_int16 f.downloads_left) ≡ true
      → let x = count_download p cmd o env w in
        (x.0 ≡ ok o)
        × (x.1.rows ≡ set_downloads (same_alias p cmd.alias) (pred_int16 f.downloads_left) rows)
  unfolding count_download keep_file ◌>>=◌
  kept f found some_left more =
      let left = pred_int16 f.downloads_left in
      let updated = set_downloads (same_alias p cmd.alias) left rows in
      ground (
        arith,
        decrement-calm p env calm w rows opened cmd.alias f found some_left,
        commit_work-calm p env calm (record w { tx = some updated }) updated refl,
      )

  last :
      (f : File)
      → find_row (is_live p (env.now select_downloads) cmd.alias) rows ≡ some f
      → is_zero f.downloads_left ≡ false
      → ltb_ℤ (pos 0) (pred_int16 f.downloads_left) ≡ false
      → let updated = set_downloads (same_alias p cmd.alias) (pred_int16 f.downloads_left) rows in
        let x = count_download p cmd o env w in
        eqb (length (keep (is_live p (env.now delete_file) cmd.alias) updated)) 0 ≡ false
        → (x.0 ≡ ok o)
          × (x.1.rows ≡ keep (λ g. not (is_live p (env.now delete_file) cmd.alias g)) updated)
  unfolding count_download drop_file ◌>>=◌
  last f found some_left more hit =
      let left = pred_int16 f.downloads_left in
      let updated = set_downloads (same_alias p cmd.alias) left rows in
      let remaining = keep (λ g. not (is_live p (env.now delete_file) cmd.alias g)) updated in
      let w₁ = record w { tx = some updated } in
      let w₂ = record w { tx = some remaining } in
      ground (
        arith,
        decrement-calm p env calm w rows opened cmd.alias f found some_left,
        delete_file_tx-calm p env calm w₁ updated refl cmd.alias hit,
        delete-calm env calm w₂ cmd.alias,
        commit_work-calm p env calm (record w₂ { folders = remove_all cmd.alias w.folders })
            remaining refl,
      )

  missing :
      (f : File)
      → find_row (is_live p (env.now select_downloads) cmd.alias) rows ≡ some f
      → is_zero f.downloads_left ≡ false
      → ltb_ℤ (pos 0) (pred_int16 f.downloads_left) ≡ false
      → let updated = set_downloads (same_alias p cmd.alias) (pred_int16 f.downloads_left) rows in
        eqb (length (keep (is_live p (env.now delete_file) cmd.alias) updated)) 0 ≡ true
        → let x = count_download p cmd o env w in
          ((e : Error) × (x.0 ≡ err e)) × (x.1.rows ≡ w.rows)
  unfolding count_download drop_file ◌>>=◌
  missing f found some_left more none_hit =
      let updated = set_downloads (same_alias p cmd.alias) (pred_int16 f.downloads_left) rows in
      let d = decrement-calm p env calm w rows opened cmd.alias f found some_left in
      let g =
        delete_file_tx-missing p env calm (record w { tx = some updated }) updated refl cmd.alias
          none_hit in
      (
        (
          (unless_ctx "services.files.Service.DownloadFile: failed to delete file info"
              (sentinel file_not_found)),
          ground (arith, d, g),
        ),
        ground (arith, d, g),
      )

  unread :
      find_row (is_live p (env.now select_downloads) cmd.alias) rows ≡ none
      → let x = count_download p cmd o env w in ((e : Error) × (x.0 ≡ err e)) × (x.1.rows ≡ w.rows)
  unfolding count_download ◌>>=◌
  unread gone =
      let d = decrement-missing p env calm w rows opened cmd.alias gone in
      (
        (
          (unless_ctx "services.files.Service.DownloadFile: failed to decrement downloads left"
              (sentinel file_not_found)),
          ground (arith, d),
        ),
        ground (arith, d),
      )

  used_up :
      (f : File)
      → find_row (is_live p (env.now select_downloads) cmd.alias) rows ≡ some f
      → is_zero f.downloads_left ≡ true
      → let x = count_download p cmd o env w in ((e : Error) × (x.0 ≡ err e)) × (x.1.rows ≡ w.rows)
  unfolding count_download ◌>>=◌
  used_up f found z =
      let d = decrement-empty p env calm w rows opened cmd.alias f found z in
      (
        (
          (unless_ctx "services.files.Service.DownloadFile: failed to decrement downloads left"
              (sentinel no_downloads_left)),
          ground (arith, d),
        ),
        ground (arith, d),
      )

-- The two steps of a download of Overlap, one straight after the other: its phase and the table.
abbrev pub alone : Platform → String → Env → List File → Phase × List File
alone p alias env rows =
    elim (after_read (find_row (is_live p (env.now select_downloads) alias) rows)) [
      | has_read n ↦ end_download p alias (env.now delete_file) n rows
      | phase ↦ (phase, rows)
    ]

-- Equal ends, the second one read off the code.
Answers-of_eq :
    (o : Opened) {a b : Phase × List File} (x : Result Opened × World)
    → a ≡ b
    → Answers o b.0 x.0 × (x.1.rows ≡ b.1)
    → Answers o a.0 x.0 × (x.1.rows ≡ a.1)
Answers-of_eq o x e h = rw e h

-- Where no call fails, and the transaction that is open has changed nothing yet: count_download does
-- what the read and the end of Overlap do one straight after the other. It returns the file where
-- they serve the download and an error where they refuse it, which is one of the two, and the
-- committed table afterwards is theirs. They refuse where no live row has the alias, where its row
-- has no downloads left, and where the DELETE of the last download finds no live row.
pub count_download-alone :
    (p : Platform) (cmd : DownloadFile) (o : Opened) (env : Env)
    → ((c : Call) → env.fault c ≡ none)
    → (w : World) → w.tx ≡ some w.rows
    → let x = count_download p cmd o env w in
      Answers o (alone p cmd.alias env w.rows).0 x.0 × (x.1.rows ≡ (alone p cmd.alias env w.rows).1)
unfolding after_read end_download
count_download-alone p cmd o env calm w opened =
    let x = count_download p cmd o env w in
    elim (Option-cases (find_row (is_live p (env.now select_downloads) cmd.alias) w.rows)) [
      | inl gone ↦
          Answers-of_eq o {b = (refused, w.rows)} x (ground (arith, gone))
            (unread p cmd o env calm w w.rows opened gone)
      | inr (f, found) ↦ elim (Bool-cases (is_zero f.downloads_left)) [
        | inl z ↦
            Answers-of_eq o {b = (refused, w.rows)} x (ground (arith, found))
              (used_up p cmd o env calm w w.rows opened f found z)
        | inr z ↦
            let updated =
              set_downloads (same_alias p cmd.alias) (pred_int16 f.downloads_left) w.rows in
            elim (Bool-cases (ltb_ℤ (pos 0) (pred_int16 f.downloads_left))) [
              | inl more ↦
                  Answers-of_eq o {b = (served, updated)} x (ground (arith, found))
                    (kept p cmd o env calm w w.rows opened f found z more)
              | inr more ↦
                  elim (Bool-cases
                    (eqb (length (keep (is_live p (env.now delete_file) cmd.alias) updated)) 0)) [
                      | inl miss ↦
                          Answers-of_eq o {b = (refused, w.rows)} x (ground (arith, found))
                            (missing p cmd o env calm w w.rows opened f found z more miss)
                      | inr hit ↦
                          Answers-of_eq o
                            {b = (
                              served,
                              keep (λ g. not (is_live p (env.now delete_file) cmd.alias g)) updated,
                            )}
                            x (ground (arith, found))
                            (last p cmd o env calm w w.rows opened f found z more hit)
                    ]
            ]
      ]
    ]

-- ===== src/Files/RoundTrip.antt =====
-- What was uploaded can be downloaded.
use expire_share_api.Prelude.{
  ℕ, ◌<◌, ◌≡◌, ◌∙◌, refl, String, none, some, List, [], ◌∷◌, ◌++◌, true, false, ◌==◌, eq_iff, arith,
  ℤ, pos, ltb_ℤ, eqb, pred_int16, keep, length, Bool-cases, inl, inr,
}
use expire_share_api.Domain.{File, UploadFile, DownloadFile, Permissions}
use expire_share_api.World.{
  World, Env, Platform, Call, ok, select_file, select_downloads, delete_file,
}
use expire_share_api.World.Post.{Post, Post-mono}
use expire_share_api.Storage.{entries}
use expire_share_api.Storage.Effects.{stored_file, uploaded-fresh}
use expire_share_api.Repo.{find_row, is_live, same_alias, set_downloads}
use expire_share_api.Repo.Table.{row_at}
use expire_share_api.Files.{upload_file, download_file, check_password}
use expire_share_api.Files.Upload.{Uploads, upload_file-Post, row_of, hash_of}
use expire_share_api.Files.Progress.{Returns, download_file-Returns}

module _ (p : Platform) where
  -- The row that was added last is the one that is found.
  find_row-append :
      (now : ℕ) (alias : String) (rows : List File) (f : File)
      → row_at p alias rows ≡ none
      → is_live p now alias f ≡ true
      → find_row (is_live p now alias) (rows ++ f ∷ []) ≡ some f
  find_row-append now alias [] f h l = ground arith
  find_row-append now alias (g ∷ gs) f h l = ground (arith, find_row-append now alias gs f)

  keep-append :
      (now : ℕ) (alias : String) (n : ℤ) (rows : List File) (f : File)
      → is_live p now alias f ≡ true
      → eqb
          (length
            (keep (is_live p now alias) (set_downloads (same_alias p alias) n (rows ++ f ∷ []))))
          0
        ≡ false
  keep-append now alias n [] f l = ground arith
  keep-append now alias n (g ∷ gs) f l = ground (arith, keep-append now alias n gs f l)

  -- What the program relies on of bcrypt: a password matches its own hash, which is not empty.
  abbrev pub Hashes : Type 0
  Hashes =
      (salt password : String)
      → (p.bcrypt_matches (p.bcrypt_generate salt password) password ≡ true)
        × ((p.bcrypt_generate salt password == "") ≡ false)

  check_password-own :
      (f : File) (env : Env) (password : String)
      → Hashes
      → f.password_hash ≡ hash_of p env password
      → check_password p f password ≡ ok tt
  unfolding check_password
  check_password-own f env password hashes h = elim (Bool-cases (password == "")) [
    | inl e ↦ rw (h, e) (ground arith)
    | inr e ↦ let own = hashes env.salt password in rw (h, e, own.0, own.1) refl
  ]

  -- The row that an upload adds has not expired when a later statement looks.
  module _ (cmd : UploadFile) (alias : String) (env later : Env) where
    abbrev pub added : File
    added = row_of p cmd alias env (hash_of p env cmd.password)

    abbrev pub LiveAt : Call → Type 0
    LiveAt c = later.now c < added.expires_at

    live_at : (c : Call) → LiveAt c → is_live p (later.now c) alias added ≡ true
    live_at c h = ground (arith, eq_iff (p.weight alias) (p.weight alias))

    downloads :
        (w w' : World)
        → Uploads p cmd alias env (hash_of p env cmd.password) w alias w'
        → Hashes
        → ((c : Call) → later.fault c ≡ none)
        → entries alias w.folders ≡ none
        → ltb_ℤ (pos 0) cmd.max_downloads ≡ true
        → LiveAt select_file
        → LiveAt select_downloads
        → LiveAt delete_file
        → Returns
            (λ o _. o.entry ≡ stored_file cmd.file cmd.filename)
            (download_file p (record { alias = alias; password = cmd.password }) later w')
    downloads w w' u hashes calm fresh d l1 l2 l3 =
        let get : DownloadFile = record { alias = alias; password = cmd.password } in
        download_file-Returns p get later calm w' added added (stored_file cmd.file cmd.filename) []
          (rw u.rows (find_row-append _ alias w.rows added u.fresh (live_at select_file l1)))
          (check_password-own added env cmd.password hashes refl)
          (u.folder ∙ rw fresh (uploaded-fresh cmd.file cmd.filename))
          (rw u.rows (find_row-append _ alias w.rows added u.fresh (live_at select_downloads l2)))
          (ground arith)
          (rw u.rows (
            keep-append _ alias (pred_int16 cmd.max_downloads) w.rows added
              (live_at delete_file l3)))

  -- With no transaction open, where a password matches its own hash and no hash is empty: after an
  -- upload that returns, of a file with downloads left, under an alias that had no folder, a download
  -- of that alias with the uploader's password returns the uploaded content under the base of its
  -- name, if no call of the download fails and the row has not expired when its statements look.
  pub download_file-upload_file :
      (cfg : Permissions) (cmd : UploadFile) (alias : String) (env later : Env) (w : World)
      → w.tx ≡ none
      → Hashes
      → ((c : Call) → later.fault c ≡ none)
      → entries alias w.folders ≡ none
      → ltb_ℤ (pos 0) cmd.max_downloads ≡ true
      → LiveAt cmd alias env later select_file
      → LiveAt cmd alias env later select_downloads
      → LiveAt cmd alias env later delete_file
      → Post
          (λ a w'.
            Returns
              (λ o _. o.entry ≡ stored_file cmd.file cmd.filename)
              (download_file p (record { alias = alias; password = cmd.password }) later w'))
          (λ _ _. Unit)
          (upload_file p cfg cmd alias env w)
  download_file-upload_file cfg cmd alias env later w idle hashes calm fresh d l1 l2 l3 =
      Post-mono _
        (λ a w' q.
          downloads cmd alias env later w w'
            (record {
              name = refl;
              fresh = q.1.fresh;
              rows = q.1.rows;
              closed = q.1.closed;
              handles = q.1.handles;
              folder = q.1.folder;
              others = q.1.others;
            })
            hashes calm fresh d l1 l2 l3)
        (λ _ _ _. tt) (upload_file-Post p cfg cmd alias env w idle)

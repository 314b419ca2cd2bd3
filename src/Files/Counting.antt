-- ===== src/Files/Counting.antt =====
-- The download counter: what each download takes from it, and how many downloads a file gives.
use expire_share_api.Files.Spending.{
  spent, downloads_of, lowered-refines, row_at-positive, downloads_of-spent,
}
use expire_share_api.Prelude.{
  ℕ, ◌+◌, ◌≤◌, String, Option, none, some, List, [], ◌∷◌, true, ◌≡◌, ◌⊎◌, inl, inr, refl, arith,
  eq_iff, if◌then◌else◌,
}
use expire_share_api.Domain.{File, DownloadFile}
use expire_share_api.World.{World, Env, Platform, Result, ok, err, select_downloads}
use expire_share_api.World.Post.{Post, Post-mono, Post-both}
use expire_share_api.Storage.{Opened}
use expire_share_api.Repo.{is_live}
use expire_share_api.Repo.Table.{row_at, same, IsValid, find_live}
use expire_share_api.Files.{download_file}
use expire_share_api.Files.Download.{download_file-Post}
use expire_share_api.Files.Settled.{counted, lowered, Settles}

-- The abstract step of one download: the counter goes down by one, and the file goes with the last.
module _ (p : Platform) (cmd : DownloadFile) (env : Env) (w : World) (v : IsValid p w.rows) where
  -- What a download does to the table, as a map from aliases to files.
  pub record Spends (rows : List File) : Type 0 where
    pub file : File
    pub present : row_at p cmd.alias w.rows ≡ some file
    pub live : is_live p (env.now select_downloads) cmd.alias file ≡ true
    pub valid : IsValid p rows
    pub others_same :
        (a : String)
        → row_at p a rows
          ≡ (if same p cmd.alias a then spent (row_at p a w.rows) else row_at p a w.rows)

  Spends-of :
      (f : File)
      → counted p cmd env w.rows ≡ some f
      → Settles p cmd env w.rows
      → Spends (lowered p cmd env w.rows)
  Spends-of f found s = record {
    file = f;
    present = (find_live p cmd.alias _ w.rows f v found).0;
    live = (find_live p cmd.alias _ w.rows f v found).1;
    valid = (lowered-refines p cmd env w v f cmd.alias found s).0;
    others_same = λ a. (lowered-refines p cmd env w v f a found s).1;
  }

  failed-Spends :
      (o : Option File)
      → counted p cmd env w.rows ≡ o
      → Settles p cmd env w.rows
      → (lowered p cmd env w.rows ≡ w.rows) ⊎ Spends (lowered p cmd env w.rows)
  failed-Spends none e s = inl (rw e)
  failed-Spends (some f) e s = inr (Spends-of f e s)

  -- In a valid table with no transaction open, a download that returns takes one from the counter of
  -- its own file, which was live, removes the file with the last one, and changes no other file. A
  -- download that fails does so too or changes nothing. The table stays valid.
  pub download-refines :
      w.tx ≡ none
      → Post
          (λ _ w'. Spends w'.rows)
          (λ _ w'. (w'.rows ≡ w.rows) ⊎ Spends w'.rows)
          (download_file p cmd env w)
  download-refines idle =
      Post-mono _
        (λ o w' d.
          let settles : Settles p cmd env w.rows = rw d.found d.gone in
          let s = Spends-of d.row d.found settles in rw d.state (rw d.found at s))
        (λ e w' d. elim d.rows [
          | inl same_rows ↦ inl same_rows
          | inr (e, _, s) ↦ rw e (failed-Spends _ refl s)
        ])
        (download_file-Post p cmd env w idle)

abbrev pub is_ok {ℓ} : {A : Type ℓ} → Result A → ℕ
is_ok (ok a) = 1
is_ok (err e) = 0

module _ (p : Platform) (alias : String) where
  -- A run of download requests for one alias, one after the other, each with its password and
  -- whatever its calls meet: how many return the file, and the state at the end.
  pub serve : List (String × Env) → World → ℕ × World
  serve [] w = (0, w)
  serve ((password, env) ∷ more) w =
      let (r, w') = download_file p (record { alias = alias; password = password }) env w in
      let (n, w'') = serve more w' in (is_ok r + n, w'')

  abbrev pub left_in : World → ℕ
  left_in w = downloads_of (row_at p alias w.rows)

  -- One request.
  abbrev OneLess : World → Result Opened × World → Type 0
  OneLess w (r, w') = (w'.tx ≡ none) × IsValid p w'.rows × (is_ok r + left_in w' ≤ left_in w)

  Spends-one_less :
      (password : String) (env : Env) (w : World) (v : IsValid p w.rows) (rows : List File)
      → Spends p (record { alias = alias; password = password }) env w v rows
      → 1 + downloads_of (row_at p alias rows) ≡ left_in w
  Spends-one_less password env w v rows s =
      let self : same p alias alias ≡ true = (eq_iff (p.weight alias) (p.weight alias)).1 refl in
      rw (s.others_same alias, self, s.present)
        (omega
          (arith, downloads_of-spent s.file (row_at-positive p alias w.rows s.file v s.present)))

  OneLess-of :
      (password : String) (env : Env) (w : World) (v : IsValid p w.rows) (x : Result Opened × World)
      → Post
          (λ _ w'.
            (w'.tx ≡ none)
            × Spends p (record { alias = alias; password = password }) env w v w'.rows)
          (λ _ w'.
            (w'.tx ≡ none)
            × ((w'.rows ≡ w.rows)
                ⊎ Spends p (record { alias = alias; password = password }) env w v w'.rows))
          x
      → OneLess w x
  OneLess-of password env w v (ok o, w') h =
      let (closed, s) = h.holds in
      (closed, s.valid, omega (arith, Spends-one_less password env w v w'.rows s))
  OneLess-of password env w v (err e, w') h = elim h.holds.1 [
    | inl kept ↦ (h.holds.0, rw kept v, rw kept (omega arith))
    | inr s ↦ (h.holds.0, s.valid, omega (arith, Spends-one_less password env w v w'.rows s))
  ]

  one_less :
      (password : String) (env : Env) (w : World)
      → w.tx ≡ none
      → IsValid p w.rows
      → OneLess w (download_file p (record { alias = alias; password = password }) env w)
  one_less password env w idle v =
      let cmd : DownloadFile = record { alias = alias; password = password } in
      OneLess-of password env w v (download_file p cmd env w) (
        Post-both _
          (Post-mono _ (λ _ w' d. rw d.state refl) (λ _ w' d. d.closed)
            (download_file-Post p cmd env w idle))
          (download-refines p cmd env w v idle))

  -- From a valid table with no transaction open, whatever the requests, one after the other, and
  -- whatever fails: an alias gives no more downloads than its row has left.
  pub serve-le :
      (requests : List (String × Env)) (w : World)
      → w.tx ≡ none
      → IsValid p w.rows
      → (serve requests w).0 + left_in (serve requests w).1 ≤ left_in w
  unfolding serve
  serve-le [] w idle v = omega arith
  serve-le ((password, env) ∷ more) w idle v =
      let h = one_less password env w idle v in
      let (r, w') = download_file p (record { alias = alias; password = password }) env w in
      omega (arith, h.2, serve-le more w' h.0 h.1)

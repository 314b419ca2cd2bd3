-- ===== src/Http/Pages.antt =====
-- The list of a user's files: the page that a query asks for.
use expire_share_api.Prelude.{
  ℕ, ◌≤◌, String, List, [], ◌∷◌, ◌≡◌, inl, inr, refl, arith, ℤ, map, length, length-take, drop,
  keep,
}
use expire_share_api.Domain.{File, GetAllFiles}
use expire_share_api.World.{World, Env, pure, page_files}
use expire_share_api.World.Post.{Post, Post-bind, Post-rewrap}
use expire_share_api.Repo.{page_of, is_owned, offset_of}
use expire_share_api.Repo.Pages.{Listed, get_files_by_user_id-Post}
use expire_share_api.Files.{get_all_files, file_info}
use expire_share_api.Http.Text.{scan_pagination_args}

scan-bounds :
    (page limit : String)
    → (1 ≤ (scan_pagination_args page limit).0)
      × (1 ≤ (scan_pagination_args page limit).1)
      × ((scan_pagination_args page limit).1 ≤ 100)
unfolding scan_pagination_args
scan-bounds page limit = ground arith

length-map : {A B : Type 0} (f : A → B) (xs : List A) → length (map f xs) ≡ length xs
length-map f [] = refl
length-map f (x ∷ xs) = omega (arith, length-map f xs)

length-page :
    (cmd : GetAllFiles) (t : ℕ) (rows : List File) → length (page_of cmd t rows) ≤ cmd.limit
length-page cmd t rows =
    omega (arith, length-take cmd.limit (drop (offset_of cmd) (keep (is_owned t cmd.user_id) rows)))

Listed-length :
    (cmd : GetAllFiles) (env : Env) (w : World) (files : List File) (total : ℕ)
    → Listed cmd env w files total
    → length files ≤ cmd.limit
Listed-length cmd env w files total (_, inl (_, e)) = rw e (omega arith)
Listed-length cmd env w files total (_, inr (_, e)) =
    rw e (length-page cmd (env.now page_files) w.rows)

-- The command that the handler makes of the query.
abbrev pub query_command : ℤ → String → String → GetAllFiles
query_command user page limit =
    let args = scan_pagination_args page limit in
    record { page = args.0; limit = args.1; user_id = user }

module _ (user : ℤ) (page limit : String) (now : ℕ) (env : Env) (w : World) where
  -- Whatever the query says: the page is at least 1 and the limit between 1 and 100; a list that is
  -- returned shows no more files than that, each of them a live file of the user's, in the table's
  -- order from the offset on, or none where the user has none; and nothing changes, neither then nor
  -- when a call fails.
  pub get_all_files-Listed :
      (1 ≤ (query_command user page limit).page)
      × (1 ≤ (query_command user page limit).limit)
      × ((query_command user page limit).limit ≤ 100)
      × Post
          (λ r w'.
            (w' ≡ w)
            × (length r.files ≤ (query_command user page limit).limit)
            × ((files : List File) × Listed (query_command user page limit) env w files r.total
                × (r.files ≡ map (file_info now) files)))
          (λ _ w'. w' ≡ w)
          (get_all_files now (query_command user page limit) env w)
  unfolding get_all_files pure
  get_all_files-Listed =
      let b = scan-bounds page limit in
      (
        b.0,
        b.1,
        b.2,
        Post-bind env w _ _
            (Post-rewrap env w _ _
              (get_files_by_user_id-Post (query_command user page limit) env w))
            (λ r x q. record {
              holds = (
                q.0,
                omega (
                  arith,
                  length-map (file_info now) r.0,
                  Listed-length (query_command user page limit) env w r.0 r.1 q.1,
                ),
                (r.0, q.1, refl),
              );
            })
            (λ _ x e. e),
      )

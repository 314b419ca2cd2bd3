-- ===== src/Files/Spelling.antt =====
-- An alias that the database takes for the one of a row, and the file system does not: the column
-- of migrations/000001_init.up.sql has the default collation, which does not tell the case of
-- letters apart, and a folder is found by its exact name.
use expire_share_api.Prelude.{
  ℕ, ◌<◌, String, none, some, List, [], ◌∷◌, false, true, ◌≡◌, ◌≢◌, arith, keep, length, eqb, not,
  ltb, lt→ltb, eq_iff,
}
use expire_share_api.Domain.{File, AliasCommand}
use expire_share_api.World.{World, Env, Platform, Call, ok, select_file, delete_file}
use expire_share_api.World.Post.{Post-mono}
use expire_share_api.Storage.{entries}
use expire_share_api.Storage.Folders.{entries-remove_all}
use expire_share_api.Repo.{is_live}
use expire_share_api.Repo.Table.{row_at, IsValid, row_at-others}
use expire_share_api.Files.{delete_file as erase, check_access}
use expire_share_api.Files.Progress.{Returns}
use expire_share_api.Files.Served.{live_found}
use expire_share_api.Files.Backed.{delete_only, row_at-own}
use expire_share_api.Files.Erasing.{delete_file-Returns}

module _ (p : Platform) where
  live_kept :
      (a : String) (now : ℕ) (rows : List File) (f : File)
      → row_at p a rows ≡ some f
      → ltb now f.expires_at ≡ true
      → eqb (length (keep (is_live p now a) rows)) 0 ≡ false
  live_kept a now [] f h l = cc
  live_kept a now (g ∷ gs) f h l = ground (arith, live_kept a now gs f)

  row_gone :
      (a : String) (now : ℕ) (rows : List File) (f : File)
      → IsValid p rows
      → row_at p a rows ≡ some f
      → ltb now f.expires_at ≡ true
      → row_at p f.alias (keep (λ g. not (is_live p now a g)) rows) ≡ none
  row_gone a now rows f v h l =
      rw (delete_only p a now rows v (ground (arith, live_kept a now rows f h l))) (
        ground (
          arith,
          row_at-others p a f.alias rows,
          row_at-own p a rows f h,
          eq_iff (p.weight a) (p.weight f.alias),
          eq_iff (p.weight f.alias) (p.weight a),
        ))

-- On a valid table, where no call fails: a deletion by a caller who may delete the file, before the
-- row expires at each statement, whose alias is the row's to the database and is spelled
-- differently, returns. The row is gone then, and the file's folder is as it was.
pub delete-orphans :
    (p : Platform) (cmd : AliasCommand) (env : Env) (w : World) (f : File)
    → ((c : Call) → env.fault c ≡ none)
    → IsValid p w.rows
    → row_at p cmd.alias w.rows ≡ some f
    → cmd.alias ≢ f.alias
    → ((c : Call) → env.now c < f.expires_at)
    → check_access f cmd.user.user_id cmd.user.roles ≡ ok tt
    → Returns
        (λ _ x.
          (row_at p f.alias x.rows ≡ none)
          × (entries f.alias x.folders ≡ entries f.alias w.folders))
        (erase p cmd env w)
delete-orphans p cmd env w f calm v here ne live allowed =
    let living = λ (c : Call). lt→ltb (env.now c) f.expires_at (live c) in
    Post-mono _
      (λ _ x c. (
        rw c.0 (row_gone p cmd.alias _ w.rows f v here (living delete_file)),
        rw c.1 (
            ground
              (arith, entries-remove_all cmd.alias f.alias w.folders, eq_iff cmd.alias f.alias)),
      ))
      (λ _ _ e. e)
      (delete_file-Returns p cmd env calm w
        (live_kept p cmd.alias _ w.rows f here (living delete_file)) f
        (live_found p cmd.alias _ w.rows f here (living select_file)) allowed)

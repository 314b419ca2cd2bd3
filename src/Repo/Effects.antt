-- ===== src/Repo/Effects.antt =====
-- What each statement of the repository does to the state, one postcondition for each operation.
-- The use cases are proved from these, with the statements shut.
use expire_share_api.Repo.Transactions.{
  TxOnly, in_tx-Post, with_tx, ok-injective, or_not_found-eq-ok, TxOnly-of_tx, TxOnly-of_eq,
  TxOnly-refl,
}
use expire_share_api.Prelude.{
  ℕ, ◌<◌, false, not, String, none, some, List, [], ◌∷◌, ◌++◌, ◌≡◌, refl, sym, ◌∙◌, arith, ℤ,
  is_zero, pred_int16, length, keep,
}
use expire_share_api.Domain.{File, AddFile}
use expire_share_api.World.{
  Platform, World, Env, ◌>>=◌, insert_file, select_file, select_downloads, delete_file,
  delete_alias, select_expired, scan_expired, prepare_delete, pure,
}
use expire_share_api.World.Post.{Post, Post-bind, Post-rewrap, Post-lift, Post-mono, Post-call}
use expire_share_api.Repo.{
  get_file_by_alias, add_file_tx, find_row, same_alias, is_live, new_row, set_downloads,
  decrement_downloads_by_alias_tx, delete_file_tx, delete_each, in_tx, or_not_found,
  decrement_found, delete_found, expired_aliases, delete_expired_files_tx,
}

-- Nothing but the transaction's own table has changed.
module _ (p : Platform) where
  pub get_file_by_alias-Post :
      (alias : String) (env : Env) (w : World)
      → Post
          (λ f w'. (w' ≡ w) × (find_row (is_live p (env.now select_file) alias) w.rows ≡ some f))
          (λ _ w'. w' ≡ w)
          (get_file_by_alias p alias env w)
  unfolding get_file_by_alias ◌>>=◌
  get_file_by_alias-Post alias env w = record { holds = ground arith }

  pub add_file_tx-Post :
      (cmd : AddFile) (env : Env) (w : World) (rows : List File)
      → w.tx ≡ some rows
      → Post
          (λ _ w'.
            (find_row (same_alias p cmd.alias) rows ≡ none)
            × (w' ≡ record w { tx = some (rows ++ new_row p cmd (env.now insert_file) ∷ []) }))
          (λ _ w'. TxOnly w w')
          (add_file_tx p cmd env w)
  unfolding add_file_tx ◌>>=◌
  add_file_tx-Post cmd env w rows h = record { holds = ground arith }

  decrement_found-Post :
      (alias : String) (f : File) (env : Env) (w : World) (rows : List File)
      → w.tx ≡ some rows
      → Post
          (λ left w'.
            (is_zero f.downloads_left ≡ false)
            × (left ≡ pred_int16 f.downloads_left)
            × (w' ≡ record w { tx = some (set_downloads (same_alias p alias) left rows) }))
          (λ _ w'. TxOnly w w')
          (decrement_found p alias f env w)
  unfolding decrement_found in_tx ◌>>=◌
  decrement_found-Post alias f env w rows h = record { holds = ground arith }

  -- What the decrement returns and writes, and the row that it has read.
  pub record Decremented (alias : String) (env : Env) (w : World) (rows : List File) (left : ℤ)
      (w' : World) : Type 0 where
    pub row : File
    pub found : find_row (is_live p (env.now select_downloads) alias) rows ≡ some row
    pub nonzero : is_zero row.downloads_left ≡ false
    pub lowered : left ≡ pred_int16 row.downloads_left
    pub written : w' ≡ record w { tx = some (set_downloads (same_alias p alias) left rows) }

  pub decrement-Post :
      (alias : String) (env : Env) (w : World) (rows : List File)
      → w.tx ≡ some rows
      → Post
          (Decremented alias env w rows)
          (λ _ w'. TxOnly w w')
          (decrement_downloads_by_alias_tx p alias env w)
  unfolding decrement_downloads_by_alias_tx
  decrement-Post alias env w rows h =
      Post-bind env w _ _ (Post-rewrap env w _ _ (in_tx-Post select_downloads _ env w rows h))
        (λ found w' q.
          Post-bind env w' _ _
            (Post-lift {Q = λ f v. (v ≡ w') × (found ≡ some f)} {E = λ _ v. TxOnly w v} env w'
              (or_not_found found) (λ f e. (refl, or_not_found-eq-ok found f e))
              (λ e _. TxOnly-of_eq q.1))
            (λ f v qf. rw (qf.0 ∙ q.1) (
              Post-mono _
                (λ left u d. record {
                  row = f;
                  found = ok-injective q.0 ∙ qf.1;
                  nonzero = d.0;
                  lowered = d.1;
                  written = d.2;
                })
                (λ e u t. TxOnly-of_tx w t)
                (decrement_found-Post alias f env (record w { tx = some rows }) rows refl)))
            (λ e v t. t))
        (λ e w' t. t)

  pub delete_file_tx-Post :
      (alias : String) (env : Env) (w : World) (rows : List File)
      → w.tx ≡ some rows
      → Post
          (λ _ w'.
            (0 < length (keep (is_live p (env.now delete_file) alias) rows))
            × (w' ≡ record w {
              tx = some (keep (λ f. not (is_live p (env.now delete_file) alias f)) rows);
            }))
          (λ _ w'. TxOnly w w')
          (delete_file_tx p alias env w)
  unfolding delete_file_tx ◌>>=◌
  delete_file_tx-Post alias env w rows h = record { holds = ground arith }

  -- The rows that are left when the aliases of a batch are deleted one by one.
  abbrev pub without : List String → List File → List File
  without [] rows = rows
  without (a ∷ more) rows = without more (keep (λ f. not (same_alias p a f)) rows)

  pub delete_each-Post :
      (aliases : List String) (env : Env) (w : World) (rows : List File)
      → w.tx ≡ some rows
      → Post
          (λ _ w'. w' ≡ record w { tx = some (without aliases rows) })
          (λ _ w'. TxOnly w w')
          (delete_each p aliases env w)
  unfolding delete_each pure
  delete_each-Post [] env w rows h = record { holds = with_tx w h }
  delete_each-Post (a ∷ more) env w rows h =
      Post-bind env w _ _ (Post-rewrap env w _ _ (in_tx-Post (delete_alias a) _ env w rows h))
        (λ _ w' q. rw q.1 (
          Post-mono _ (λ _ u d. d) (λ e u t. TxOnly-of_tx w t)
            (delete_each-Post more env
              (record w { tx = some (keep (λ f. not (same_alias p a f)) rows) })
              (keep (λ f. not (same_alias p a f)) rows) refl)))
        (λ e w' t. t)

  delete_found-Post :
      (found : List String) (env : Env) (w : World) (rows : List File)
      → w.tx ≡ some rows
      → Post
          (λ r w'. (r ≡ found) × (w' ≡ record w { tx = some (without found rows) }))
          (λ _ w'. TxOnly w w')
          (delete_found p found env w)
  unfolding delete_found pure
  delete_found-Post [] env w rows h = record { holds = (refl, with_tx w h) }
  delete_found-Post (a ∷ more) env w rows h =
      Post-bind env w _ _ (Post-rewrap env w _ _ (Post-call prepare_delete env w))
        (λ _ w' e. rw e (
          Post-bind env w _ _ (delete_each-Post (a ∷ more) env w rows h)
            (λ _ u d. record { holds = (refl, d) }) (λ e u t. t)))
        (λ e w' q. rw q (TxOnly-refl w))

  pub delete_expired-Post :
      (limit : ℕ) (env : Env) (w : World) (rows : List File)
      → w.tx ≡ some rows
      → Post
          (λ found w'.
            (found ≡ expired_aliases limit (env.now select_expired) rows)
            × (w' ≡ record w { tx = some (without found rows) }))
          (λ _ w'. TxOnly w w')
          (delete_expired_files_tx p limit env w)
  unfolding delete_expired_files_tx
  delete_expired-Post limit env w rows h =
      Post-bind env w _ _ (Post-rewrap env w _ _ (in_tx-Post select_expired _ env w rows h))
        (λ found w' q. rw q.1 (
          Post-bind env _ _ _
            (Post-rewrap env _ _ _ (Post-call scan_expired env (record w { tx = some rows })))
            (λ _ v e. rw e (
              Post-mono _ (λ r u d. (d.0 ∙ sym (ok-injective q.0), rw d.0 d.1))
                (λ e u t. TxOnly-of_tx w t)
                (delete_found-Post found env (record w { tx = some rows }) rows refl)))
            (λ e v t. rw t (TxOnly-of_eq refl))))
        (λ e w' t. t)

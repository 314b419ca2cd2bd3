-- ===== src/Files/Outcome.antt =====
-- What a use case leaves behind when it fails: the shared part of the theorems on UploadFile,
-- DownloadFile and DeleteFile.
use expire_share_api.Prelude.{
  String, Option, none, List, Bool, true, false, ◌≡◌, ◌≢◌, ◌⊎◌, inl, inr, refl, ap, if◌then◌else◌,
}
use expire_share_api.Domain.{File}
use expire_share_api.World.{World, Env, rolled_back}
use expire_share_api.Repo.Transactions.{TxOnly}
use expire_share_api.Storage.{entries}
use expire_share_api.Storage.Effects.{FolderOnly}

-- The committed table is the old one, or it is `new` because the commit took effect although it
-- reported an error; `Reached` is what holds where the commit is reached. The folders of other aliases and the open handles are as before.
pub record Failed (new : List File) (Reached : Type 0) (alias : String) (env : Env) (w w' : World)
    : Type 0 where
  pub rows : (w'.rows ≡ w.rows) ⊎ ((w'.rows ≡ new) × (env.commit_applied ≡ true) × Reached)
  pub handles : w'.open_files ≡ w.open_files
  pub others : (a : String) → alias ≢ a → entries a w'.folders ≡ entries a w.folders

module _ (new : List File) (Reached : Type 0) (alias : String) (env : Env) (w : World) where
  pub Failed-refl : Failed new Reached alias env w w
  Failed-refl = record { rows = inl refl; handles = refl; others = λ a ne. refl }

  pub Failed-of_TxOnly : {u : World} → TxOnly w u → Failed new Reached alias env w u
  Failed-of_TxOnly t = record {
    rows = inl t.rows;
    handles = t.open_files;
    others = λ a ne. ap (entries a) t.folders;
  }

  -- The statements of a transaction, then a change of the folder.
  pub Failed-of_FolderOnly :
      {t : Option (List File)} {u : World}
      → FolderOnly alias (record w { tx = t }) u
      → Failed new Reached alias env w u
  Failed-of_FolderOnly f = record { rows = inl f.rows; handles = f.open_files; others = f.others }

  committed_rows :
      (b : Bool) (rows : List File)
      → Reached
      → rows ≡ w.rows
      → ((if b then new else rows) ≡ w.rows)
        ⊎ (((if b then new else rows) ≡ new) × (b ≡ true) × Reached)
  committed_rows true rows r h = inr (refl, refl, r)
  committed_rows false rows r h = inl h

  -- A commit that reports an error.
  pub Failed-of_commit :
      {t : Option (List File)} {u v : World}
      → Reached
      → FolderOnly alias (record w { tx = t }) u
      → v ≡ record u { rows = if env.commit_applied then new else u.rows; tx = none }
      → Failed new Reached alias env w v
  Failed-of_commit {u = u} r f e = rw e record {
    rows = committed_rows env.commit_applied u.rows r f.rows;
    handles = f.open_files;
    others = f.others;
  }

  -- The rollback that the deferred cleanup makes.
  pub Failed-of_rollback :
      {u : World}
      → Failed new Reached alias env w u
      → Failed new Reached alias env w (rolled_back u)
  Failed-of_rollback h = record { rows = h.rows; handles = h.handles; others = h.others }

-- ===== src/Repo/Transactions.antt =====
-- What a transaction leaves alone: begin, commit and a statement of it.
use expire_share_api.Prelude.{
  ℕ, Option, none, some, List, ◌≡◌, refl, ap, arith, if◌then◌else◌, eqb_ℤ, ℤ, length, keep, ◌⊎◌,
  true,
}
use expire_share_api.Domain.{File, FilesStat}
use expire_share_api.World.{World, Env, Call, Result, ◌>>=◌, ok, commit}
use expire_share_api.World.Post.{Post}
use expire_share_api.Repo.{
  begin, commit_work, get_files_stat_by_user_id, sum_size, in_tx, or_not_found,
}

pub record TxOnly (w w' : World) : Type 0 where
  pub rows : w'.rows ≡ w.rows
  pub folders : w'.folders ≡ w.folders
  pub open_files : w'.open_files ≡ w.open_files

pub begin-Post :
    (env : Env) (w : World)
    → Post (λ _ w'. w' ≡ record w { tx = some w.rows }) (λ _ w'. w' ≡ w) (begin env w)
unfolding begin ◌>>=◌
begin-Post env w = record { holds = ground arith }

pub commit_work-Post :
    (env : Env) (w : World) (rows : List File)
    → w.tx ≡ some rows
    → Post
        (λ _ w'. w' ≡ record w { rows = rows; tx = none })
        (λ _ w'. w' ≡ record w { rows = if env.commit_applied then rows else w.rows; tx = none })
        (commit_work env w)
unfolding commit_work
commit_work-Post env w rows h = record { holds = ground arith }

-- The server applies every commit, whatever it reports.
abbrev pub Applies : Env → Type 0
Applies env = (env.fault commit ≡ none) ⊎ (env.commit_applied ≡ true)

pub commit_work-Applies :
    (env : Env) (w : World) (rows : List File)
    → Applies env
    → w.tx ≡ some rows
    → Post
        (λ _ w'. w' ≡ record w { rows = rows; tx = none })
        (λ _ w'. w' ≡ record w { rows = rows; tx = none })
        (commit_work env w)
unfolding commit_work
commit_work-Applies env w rows a h = record { holds = ground arith }

-- A statement of the open transaction works on the transaction's table.
pub in_tx-Post :
    {A : Type 0} (c : Call) (f : ℕ → List File → Result A × List File) (env : Env) (w : World)
    (rows : List File)
    → w.tx ≡ some rows
    → Post
        (λ a w'.
          ((f (env.now c) rows).0 ≡ ok a) × (w' ≡ record w { tx = some (f (env.now c) rows).1 }))
        (λ _ w'. TxOnly w w')
        (in_tx c f env w)
unfolding in_tx
in_tx-Post c f env w rows h = record { holds = ground arith }

pub with_tx : (w : World) {rows : List File} → w.tx ≡ some rows → w ≡ record w { tx = some rows }
with_tx w h = ground arith

pub ok-injective : {A : Type 0} {a b : A} → ok a ≡ ok b → a ≡ b
ok-injective h = cc

pub or_not_found-eq-ok : (o : Option File) (f : File) → or_not_found o ≡ ok f → o ≡ some f
or_not_found-eq-ok none f h = cc
or_not_found-eq-ok (some g) f h = ground arith

-- The transaction's table does not count.
pub TxOnly-of_tx :
    (w : World) {t : Option (List File)} {u : World} → TxOnly (record w { tx = t }) u → TxOnly w u
TxOnly-of_tx w h = record { rows = h.rows; folders = h.folders; open_files = h.open_files }

pub TxOnly-of_eq : {w u : World} {t : Option (List File)} → u ≡ record w { tx = t } → TxOnly w u
TxOnly-of_eq h = record {
  rows = ap (λ v. v.rows) h;
  folders = ap (λ v. v.folders) h;
  open_files = ap (λ v. v.open_files) h;
}

pub TxOnly-refl : (w : World) → TxOnly w w
TxOnly-refl w = record { rows = refl; folders = refl; open_files = refl }

abbrev pub stat_of : ℤ → List File → FilesStat
stat_of user rows = record {
  user_id = user;
  count = length (keep (λ f. eqb_ℤ f.user_id user) rows);
  size = sum_size (keep (λ f. eqb_ℤ f.user_id user) rows);
}

pub get_files_stat-Post :
    (user : ℤ) (env : Env) (w : World)
    → Post
        (λ s w'. (w' ≡ w) × (s ≡ stat_of user w.rows))
        (λ _ w'. w' ≡ w)
        (get_files_stat_by_user_id user env w)
unfolding get_files_stat_by_user_id ◌>>=◌
get_files_stat-Post user env w = record { holds = ground arith }

-- ===== src/Db/Invariant.antt =====
-- The invariant of the database of crates/paur-db: the keys, the references and the constraints of
-- the migrations, and the life of a build.
pub mod OfBuilds
pub mod Enqueue
pub mod Transitions
pub mod OfLogs
pub mod OfPackages
pub mod OfDelete
use paur.Prelude.{
  ℕ, ◌≤◌, ◌<◌, ◌≡◌, Bool, true, false, Option, none, List, any, All, Pairwise, is_some, ◌==◌,
}
use paur.Prelude.Text.{Text, text_eq}
use paur.Core.Variants as Variants
use paur.Db.Models.{
  Db, Package, Build, LogRow, BuildStatus, queued, running, success, failed, cancelled,
}

unfoldable pub is_terminal : BuildStatus → Bool
is_terminal queued = false
is_terminal running = false
is_terminal _ = true

-- The columns of a build agree with its status.
pub record IsCoherent (b : Build) : Type 0 where
  pub numbered : 1 ≤ b.seq
  pub known_variant : is_some (Variants.parse b.variant) ≡ true
  pub fresh : b.status ≡ queued → (b.started_at ≡ none) × (b.worker_id ≡ none)
  pub open_end : is_terminal b.status ≡ false → b.finished_at ≡ none
  pub owned_run : b.status ≡ running → (is_some b.started_at ≡ true) × (is_some b.worker_id ≡ true)
  pub stamped : is_terminal b.status ≡ true → is_some b.finished_at ≡ true

abbrev pub has_package : List Package → ℕ → Bool
has_package ps id = any (λ (p : Package). p.id == id) ps

abbrev pub has_build : List Build → ℕ → Bool
has_build bs id = any (λ (b : Build). b.id == id) bs

-- Of two rows in table order.
abbrev pub ByPackage : ℕ × ℕ → ℕ × ℕ → Type 0
ByPackage j k = j.0 ≡ k.0 → j.1 < k.1

abbrev pub build_key : Build → ℕ × ℕ
build_key b = (b.package_id, b.seq)

abbrev pub log_key : LogRow → ℕ × ℕ
log_key l = (l.build_id, l.seq)

abbrev pub Below : ℕ → ℕ → Type 0
Below i j = i < j

abbrev pub Differ : Text → Text → Type 0
Differ s t = text_eq s t ≡ false

-- `builds`: ids go up and are never given out twice, the numbers of a package's builds go up, and
-- each build has its package.
pub record BuildsValid (ps : List Package) (bs : List Build) (last : ℕ) : Type 0 where
  pub ids : Pairwise (λ b c. Below b.id c.id) bs
  pub given_out : All (λ b. b.id ≤ last) bs
  pub seqs : Pairwise (λ b c. ByPackage (build_key b) (build_key c)) bs
  pub coherent : All IsCoherent bs
  pub references : All (λ b. has_package ps b.package_id ≡ true) bs

-- `packages`: ids and names are unique, and the `default` variant is on.
pub record PackagesValid (ps : List Package) : Type 0 where
  pub ids : Pairwise (λ p q. Below p.id q.id) ps
  pub names : Pairwise (λ p q. Differ p.name q.name) ps
  pub default_on : All (λ p. p.variants.default ≡ true) ps

-- `build_logs`: the numbers of a build's lines go up, and each line has its build.
pub record LogsValid (bs : List Build) (ls : List LogRow) : Type 0 where
  pub seqs : Pairwise (λ k l. ByPackage (log_key k) (log_key l)) ls
  pub references : All (λ l. has_build bs l.build_id ≡ true) ls

pub record IsValid (d : Db) : Type 0 where
  pub builds_valid : BuildsValid d.packages d.builds d.last_build_id
  pub packages_valid : PackagesValid d.packages
  pub logs_valid : LogsValid d.builds d.build_logs

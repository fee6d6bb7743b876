-- ===== src/Repo/Signing.antt =====
-- What `sign` of crates/paur-repo/src/lib.rs does to the files, given what gpg is documented to do.
use paur.Prelude.{
  ◌≡◌, refl, sym, ap, ◌∙◌, subst, ◌≢◌, inl, inr, Bool, true, false, Option, none, some, List, [],
  ◌∷◌, map, arith, Bool-cases, All,
}
use paur.Prelude.Text.{Text, codes, text_eq, eq_of_text_eq, ne_of_text_eq}
use paur.Prelude.Results.{ok}
use paur.Prelude.Effects.{Ensures, Ensures-bind}
use paur.Prelude.Disk.{Files, unlink, unlink-other}
use paur.Builder.{join, ends_with}
use paur.Repo.{RepoCtx, Host, sig_of, sign_args, sign, resign, resign_all, gpg_end}
use paur.Repo.Paths.{ne_sig, join-ne, sig_of-inj, sig_of-ne, sig_of-join}

-- The documented behaviour of the tools: copying a file writes only the destination; gpg writes only
-- the signature that `--output` names, which on success is the one of the target's content by the key.
-- Nothing is said of what a run of gpg that fails leaves there.
pub record HostLaws (signature : Text → Text → Text → Text) (host : Host) : Type 0 where
  pub copy-frame :
      (src dst : Text) (files : Files) (q : Text)
      → dst ≢ q
      → (host.copy src dst files).0 q ≡ files q
  pub gpg-frame :
      (home key target : Text) (files : Files) (q : Text)
      → sig_of target ≢ q
      → (host.run_gpg home (sign_args key target) files).0 q ≡ files q
  pub gpg-signs :
      (home key target : Text) (files after : Files)
      → host.run_gpg home (sign_args key target) files ≡ (after, some true)
      → (content : Text) × (files target ≡ some content)
        × (after (sig_of target) ≡ some (signature home key content))

-- A file and the signature of what it holds.
abbrev pub SignedAt : (Text → Text → Text → Text) → RepoCtx → Files → Text → Type 0
SignedAt signature ctx files path =
    (content : Text) × (files path ≡ some content)
    × (files (sig_of path) ≡ some (signature ctx.gpg_home ctx.gpg_key content))

module _ (signature : Text → Text → Text → Text) (host : Host) (laws : HostLaws signature host)
    (ctx : RepoCtx) where
  pub sign-frame :
      (target : Text) (files : Files) (q : Text)
      → sig_of target ≢ q
      → (sign host ctx target files).0 q ≡ files q
  unfolding sign
  sign-frame target files q h =
      helper (host.run_gpg ctx.gpg_home (sign_args ctx.gpg_key target) files)
        (laws.gpg-frame ctx.gpg_home ctx.gpg_key target files q h)
    where
      helper : (r : Files × Option Bool) → r.0 q ≡ files q → (gpg_end r).0 q ≡ files q
      helper (after, none) e = e
      helper (after, some false) e = e
      helper (after, some true) e = e

  pub resign-frame :
      (target : Text) (files : Files) (q : Text)
      → sig_of target ≢ q
      → (resign host ctx target files).0 q ≡ files q
  unfolding resign
  resign-frame target files q h =
      sign-frame target (unlink (sig_of target) files) q h ∙ unlink-other (sig_of target) q files h

  sign-signs :
      (target : Text) (files : Files)
      → Ensures files (sign host ctx target) (λ u after. SignedAt signature ctx after target)
  unfolding sign
  sign-signs target files u after h =
      helper (host.run_gpg ctx.gpg_home (sign_args ctx.gpg_key target) files) refl h
    where
      helper :
          (r : Files × Option Bool)
          → host.run_gpg ctx.gpg_home (sign_args ctx.gpg_key target) files ≡ r
          → gpg_end r ≡ (after, ok u)
          → SignedAt signature ctx after target
      helper (t, none) e g = absurd (ground arith)
      helper (t, some false) e g = absurd (ground arith)
      helper (t, some true) e g =
          let (content, held, sig) = laws.gpg-signs ctx.gpg_home ctx.gpg_key target files t e in
          let same : t ≡ after = ap (λ p. p.0) g in
          let kept =
            laws.gpg-frame ctx.gpg_home ctx.gpg_key target files target (sig_of-ne target) in
          subst (λ f. SignedAt signature ctx f target) same
            (content, subst (λ p. p.0 target ≡ files target) e kept ∙ held, sig)

  pub resign-signs :
      (target : Text) (files : Files)
      → Ensures files (resign host ctx target) (λ u after. SignedAt signature ctx after target)
  unfolding resign
  resign-signs target files = sign-signs target (unlink (sig_of target) files)

  pub SignedAt-same :
      (path : Text) (files after : Files)
      → after path ≡ files path
      → after (sig_of path) ≡ files (sig_of path)
      → SignedAt signature ctx files path
      → SignedAt signature ctx after path
  SignedAt-same path files after a b (content, held, sig) = (content, a ∙ held, b ∙ sig)

  -- A later signature does not disturb a signed file that is not itself a signature.
  resign-keeps :
      (p q : Text) (files : Files)
      → sig_of q ≢ p
      → SignedAt signature ctx files p
      → Ensures files (resign host ctx q) (λ u after. SignedAt signature ctx after p)
  resign-keeps p q files apart signed u after h = elim (Bool-cases (text_eq q p)) [
    | inl e ↦
        let same : q ≡ p = eq_of_text_eq q p e in
        subst (SignedAt signature ctx after) same (resign-signs q files u after h)
    | inr e ↦
        let end : (resign host ctx q files).0 ≡ after = ap (λ r. r.0) h in
        let other : sig_of q ≢ sig_of p = λ x. ne_of_text_eq q p e (sig_of-inj q p x) in
        subst (λ f. SignedAt signature ctx f p) end
          (SignedAt-same p files ((resign host ctx q files).0) (resign-frame q files p apart)
            (resign-frame q files (sig_of p) other) signed)
  ]

  pub resign_all-keeps :
      (p : Text) (qs : List Text) (files : Files)
      → All (λ q. sig_of q ≢ p) qs
      → SignedAt signature ctx files p
      → Ensures files (resign_all host ctx qs) (λ u after. SignedAt signature ctx after p)
  unfolding resign_all
  resign_all-keeps p [] files apart signed u after h =
      subst (λ f. SignedAt signature ctx f p) (ap (λ r. r.0) h) signed
  resign_all-keeps p (q ∷ qs) files apart signed u after h =
      Ensures-bind files (resign host ctx q) (λ u. resign_all host ctx qs)
        (λ u after. SignedAt signature ctx after p)
        (λ u t h. resign_all-keeps p qs t apart.1 (resign-keeps p q files apart.0 signed u t h)) u
        after h

  pub not_sigs :
      (dir n : Text) (ms : List Text)
      → ends_with (codes ".sig") n ≡ false
      → All (λ q. sig_of q ≢ join dir n) (map (join dir) ms)
  not_sigs dir n [] plain = tt
  not_sigs dir n (m ∷ ms) plain = (
    λ e. join-ne dir n (sig_of m) (ne_sig n m plain) (sym e ∙ sig_of-join dir m),
    not_sigs dir n ms plain,
  )

  pub resign_all-signs :
      (dir : Text) (ns : List Text) (files : Files)
      → All (λ n. ends_with (codes ".sig") n ≡ false) ns
      → Ensures files
          (resign_all host ctx (map (join dir) ns))
          (λ u after. All (λ n. SignedAt signature ctx after (join dir n)) ns)
  unfolding resign_all
  resign_all-signs dir [] files plain u after h = tt
  resign_all-signs dir (n ∷ ns) files plain u after h =
      Ensures-bind files (resign host ctx (join dir n))
        (λ u. resign_all host ctx (map (join dir) ns))
        (λ u after. All (λ n. SignedAt signature ctx after (join dir n)) (n ∷ ns))
        (λ u t first v end rest. (
          resign_all-keeps (join dir n) (map (join dir) ns) t (not_sigs dir n ns plain.0)
              (resign-signs (join dir n) files u t first) v end rest,
          resign_all-signs dir ns t plain.1 v end rest,
        ))
        u after h

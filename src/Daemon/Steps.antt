-- ===== src/Daemon/Steps.antt =====
-- The steps of the daemon of crates/paur-daemon, by any of its tasks, and the statements of the
-- database that they make.
use paur.Prelude.{ℕ, ◌≡◌, subst, Bool, true, List, [], ◌∷◌, arith, Bool-cases, inl, inr, Option}
use paur.Prelude.Text.{Text, text_eq}
use paur.Prelude.Results.{Result, ok, err, Result-cases}
use paur.Core.Name.{PkgName}
use paur.Core.Flags.{PackageBuildFlags, no_flags}
use paur.Core.Variants.{Variant}
use paur.Builder.{BuildOutcome}
use paur.Db.Models.{Db, Package, Build, poll, stdout}
use paur.Db.Builds.{enqueue_build}
use paur.Db.Logs.{append_log}
use paur.Db.Packages.{list_packages}
use paur.Db.Statements.{
  Runs, Runs-append, none_yet, and_then, creates_session, deletes_session, enqueues, reaps, logs,
}
use paur.Daemon.State.{App, write_line, one_line, channel_for}
use paur.Daemon.Worker.{Outside, process_one, start_up, finish}
use paur.Daemon.Worker.Valid.{process_one-Runs, finish-Runs}
use paur.Daemon.Poller.{poll_once, poll_each, is_due, live_pids}
use paur.Prelude.{refl, true, false, ◌+◌, unwrap_or, is_empty, none, some}
use paur.Daemon.Api.Packages.{
  AddPackageBody, add_package, set_package_auto, set_package_flags, set_package_variants,
  delete_package_route, rebuild_package,
}
use paur.Daemon.Api.Builds.{cancel_build}
use paur.Core.Auth.{Crypto, verify_password, hash_session_token}
use paur.Db.Settings.{get_setting}
use paur.Db.Sessions.{create_session}
use paur.Daemon.Auth.{
  granted, login, logout, admin, session_ttl_secs, setting_password_hash, after_verify, create,
  end_session,
}
use paur.Daemon.Api.Handlers.{handlers-Runs}

-- One step: a request, of those that change something, an iteration of the poll, the start, a round of
-- the worker with the next id of the channel, and, as other tasks can come between them, a line of a running build and the end of a
-- build each by itself.
pub data Step (a b : App) : Type 0 where
  adds : (now : ℕ) (body : AddPackageBody) → b ≡ (add_package now body a).0 → Step a b
  sets_auto : (name : Text) (auto : Bool) → b ≡ (set_package_auto name auto a).0 → Step a b
  sets_flags :
      (name : Text) (flags : PackageBuildFlags) → b ≡ (set_package_flags name flags a).0 → Step a b
  sets_variants :
      (now : ℕ) (name : Text) (raw : List Text)
      → b ≡ (set_package_variants now name raw a).0
      → Step a b
  deletes : (name : Text) → b ≡ (delete_package_route name a).0 → Step a b
  rebuilds : (now : ℕ) (name : Text) → b ≡ (rebuild_package now name a).0 → Step a b
  cancels : (now id : ℕ) → b ≡ (cancel_build now id a).0 → Step a b
  logs_in :
      (c : Crypto) (now : ℕ) (token : List ℕ) (username password cookie : Text) (d : Db)
      → login c now token username password a.db ≡ granted (d, cookie)
      → b ≡ record a { db = d }
      → Step a b
  logs_out :
      (c : Crypto) (cookie : Option Text) → b ≡ record a { db = logout c cookie a.db } → Step a b
  polls :
      (now : ℕ) (ls_remote : PkgName → Option Text) → b ≡ (poll_once now ls_remote a).0 → Step a b
  starts : (max_workers now : ℕ) → start_up max_workers now a ≡ ok b → Step a b
  works :
      (o : Outside) (id : ℕ) (rest : List ℕ)
      → a.wakes ≡ id ∷ rest
      → b ≡ (process_one o id (record a { wakes = rest })).0
      → Step a b
  writes : (now id : ℕ) (line : Text) → write_line now id line a ≡ ok b → Step a b
  ends :
      (o : Outside) (build : Build) (pkg : Package) (name : PkgName) (v : Variant)
      (outcome : BuildOutcome)
      → b ≡ finish o build pkg name v outcome a
      → Step a b

-- What the tasks do, in the order in which it happens.
pub data Trace (a : App) : App → Type 0 where
  at_start : Trace a a
  next : {b c : App} → Trace a b → Step b c → Trace a c

module _ {d0 : Db} where
  poll_each-Runs :
      (now : ℕ) (ls_remote : PkgName → Option Text) (live : List ℕ) (ps : List Package) (d : Db)
      → Runs d0 d
      → Runs d0 (poll_each now ls_remote live ps d).0
  unfolding poll_each
  poll_each-Runs now ls_remote live [] d r = r
  poll_each-Runs now ls_remote live (p ∷ ps) d r = elim (Bool-cases (is_due ls_remote live p)) [
    | inr e ↦
        let skip : poll_each now ls_remote live (p ∷ ps) d ≡ poll_each now ls_remote live ps d =
          ground (arith, e) in
        rw skip (poll_each-Runs now ls_remote live ps d r)
    | inl e ↦ elim (Result-cases (enqueue_build now p.id poll Variant.default d)) [
      | inr (x, bad) ↦
          let stop : poll_each now ls_remote live (p ∷ ps) d ≡ (d, err x) =
            ground (arith, e, bad) in
          rw stop r
      | inl ((f, id), good) ↦
          let step : poll_each now ls_remote live (p ∷ ps) d ≡ poll_each now ls_remote live ps f =
            ground (arith, e, good) in
          rw step (
            poll_each-Runs now ls_remote live ps f
              (and_then r (enqueues now p.id id poll Variant.default good)))
    ]
  ]

  start_up-Runs :
      (max_workers now : ℕ) (a b : App)
      → start_up max_workers now a ≡ ok b
      → Runs d0 a.db
      → Runs d0 b.db
  unfolding start_up
  start_up-Runs max_workers now a b h r = and_then r (reaps now (ground arith))

  write_line-Runs :
      (now id : ℕ) (line : Text) (a b : App)
      → write_line now id line a ≡ ok b
      → Runs d0 a.db
      → Runs d0 b.db
  unfolding write_line channel_for
  write_line-Runs now id line a b h r =
      elim (Result-cases (append_log now id stdout (one_line line) a.db)) [
        | inr (x, bad) ↦ absurd (ground arith)
        | inl (d, good) ↦
            let same : d ≡ b.db = ground arith in
            subst (Runs d0) same (and_then r (logs now id stdout (one_line line) good))
      ]

module _ {d0 : Db} where
  create-Runs :
      (c : Crypto) (now : ℕ) (token : List ℕ) (cookie : Text) (d e : Db)
      → create c now token d ≡ granted (e, cookie)
      → Runs d0 d
      → Runs d0 e
  unfolding create
  create-Runs c now token cookie d e h r =
      let hash = hash_session_token c token in
      elim (Result-cases (create_session now hash admin (now + session_ttl_secs) d)) [
        | inr (x, bad) ↦ absurd (ground arith)
        | inl (f, good) ↦
            let same : f ≡ e = ground arith in
            subst (Runs d0) same
              (and_then r (creates_session now hash admin (now + session_ttl_secs) good))
      ]

  after_verify-Runs :
      (c : Crypto) (now : ℕ) (token : List ℕ) (cookie : Text) (d e : Db) (q : Result Bool)
      → after_verify c now token d q ≡ granted (e, cookie)
      → Runs d0 d
      → Runs d0 e
  unfolding after_verify
  after_verify-Runs c now token cookie d e (err x) h r = absurd (ground arith)
  after_verify-Runs c now token cookie d e (ok false) h r = absurd (ground arith)
  after_verify-Runs c now token cookie d e (ok true) h r = create-Runs c now token cookie d e h r

  login-Runs :
      (c : Crypto) (now : ℕ) (token : List ℕ) (username password cookie : Text) (d e : Db)
      → login c now token username password d ≡ granted (e, cookie)
      → Runs d0 d
      → Runs d0 e
  unfolding login
  login-Runs c now token username password cookie d e h r =
      let stored = unwrap_or (get_setting setting_password_hash d) [] in
      elim (Bool-cases (text_eq username admin)) [
        | inr other ↦ absurd (ground arith)
        | inl is_admin ↦ elim (Bool-cases (is_empty stored)) [
          | inl unset ↦ absurd (ground arith)
          | inr set ↦
              after_verify-Runs c now token cookie d e (verify_password c password stored)
                (ground arith) r
        ]
      ]

  end_session-Runs :
      (c : Crypto) (bytes : Option (List ℕ)) (d : Db) → Runs d0 d → Runs d0 (end_session c bytes d)
  unfolding end_session
  end_session-Runs c none d r = r
  end_session-Runs c (some bytes) d r =
      and_then r (deletes_session (hash_session_token c bytes) refl)

  logout-Runs :
      (c : Crypto) (cookie : Option Text) (d : Db) → Runs d0 d → Runs d0 (logout c cookie d)
  unfolding logout
  logout-Runs c none d r = r
  logout-Runs c (some cookie) d r = end_session-Runs c (c.hex_decode cookie) d r

abbrev no_body : List Text → AddPackageBody
no_body raw = record { name = []; auto_rebuild = true; variants = raw }

Step-Runs : (a b : App) → Step a b → Runs a.db b.db
unfolding poll_once
Step-Runs a b (adds now body h) = rw h ((handlers-Runs now 0 [] body true no_flags a).0)
Step-Runs a b (sets_auto name auto h) =
    rw h ((handlers-Runs 0 0 name (no_body []) auto no_flags a).1)
Step-Runs a b (sets_flags name flags h) =
    rw h ((handlers-Runs 0 0 name (no_body []) true flags a).2)
Step-Runs a b (sets_variants now name raw h) =
    rw h ((handlers-Runs now 0 name (no_body raw) true no_flags a).3)
Step-Runs a b (deletes name h) = rw h ((handlers-Runs 0 0 name (no_body []) true no_flags a).4)
Step-Runs a b (rebuilds now name h) =
    rw h ((handlers-Runs now 0 name (no_body []) true no_flags a).5)
Step-Runs a b (cancels now id h) = rw h ((handlers-Runs now id [] (no_body []) true no_flags a).6)
Step-Runs a b (logs_in c now token username password cookie d h e) =
    rw e (login-Runs c now token username password cookie a.db d h none_yet)
Step-Runs a b (logs_out c cookie e) = rw e (logout-Runs c cookie a.db none_yet)
Step-Runs a b (polls now ls_remote h) =
    rw h (poll_each-Runs now ls_remote (live_pids a.db) (list_packages a.db) a.db none_yet)
Step-Runs a b (starts max_workers now h) = start_up-Runs max_workers now a b h none_yet
Step-Runs a b (works o id rest q h) =
    rw h (process_one-Runs o id (record a { wakes = rest }) none_yet)
Step-Runs a b (writes now id line h) = write_line-Runs now id line a b h none_yet
Step-Runs a b (ends o build pkg name v outcome h) =
    rw h (finish-Runs o build pkg name v outcome a none_yet)

-- Whatever steps the tasks of the daemon take, in whatever order, the database goes through a sequence of the
-- statements: the start, the requests that change something, logins and logouts among them, the
-- iterations of the poll, the rounds of the worker, and between them single lines and ends of builds; each of these is one step.
pub Trace-Runs : (a b : App) → Trace a b → Runs a.db b.db
Trace-Runs a b at_start = none_yet
Trace-Runs a b (next {b = m} trace step) =
    Runs-append a.db m.db b.db (Trace-Runs a m trace) (Step-Runs m b step)

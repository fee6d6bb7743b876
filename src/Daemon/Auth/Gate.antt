-- ===== src/Daemon/Auth/Gate.antt =====
-- Whom the `Admin` extractor of crates/paur-daemon/src/auth.rs lets in.
use paur.Prelude.{ℕ, ◌≡◌, refl, ap, ◌↔◌, ◌⊎◌, inl, inr, Bool-cases, true, Option, none, some, arith}
use paur.Prelude.Text.{Text}
use paur.Db.Models.{Db}
use paur.Core.Auth.{Crypto}
use paur.Daemon.Auth.{granted, IpAddr, v4, v6, is_loopback, admit, status, require_user}

local_address :
    (p : Option IpAddr) → is_loopback p ≡ true → (p ≡ some (v4 127 0 0 1)) ⊎ (p ≡ some (v6 1))
unfolding is_loopback
local_address none h = absurd (ground arith)
local_address (some (v4 a b c d)) h =
    let w : a ≡ 127 = ground arith in
    let x : b ≡ 0 = ground arith in
    let y : c ≡ 0 = ground arith in let z : d ≡ 1 = ground arith in inl (rw (w, x, y, z) refl)
local_address (some (v6 n)) h = let same : n ≡ 1 = ground arith in inr (rw same refl)

abbrev pub LetIn : Crypto → ℕ → Option IpAddr → Option Text → Db → Type 0
LetIn c now peer cookie d =
    (peer ≡ some (v4 127 0 0 1)) ⊎ ((peer ≡ some (v6 1)) ⊎ (status c now cookie d ≡ (true, true)))

let_in :
    (c : Crypto) (now : ℕ) (peer : Option IpAddr) (cookie : Option Text) (d : Db)
    → admit c now peer cookie d ≡ granted tt
    → LetIn c now peer cookie d
unfolding admit status require_user
let_in c now peer cookie d h = elim (Bool-cases (is_loopback peer)) [
  | inl e ↦ elim (local_address peer e) [ inl a ↦ inl a | inr b ↦ inr (inl b) ]
  | inr other ↦ inr (inr (ground arith))
]

-- A request is let in exactly if its peer is 127.0.0.1 or ::1, or a password is set and the request is
-- authenticated, as `status` reports both; no other address of the peer lets it in.
pub admit-eq :
    (c : Crypto) (now : ℕ) (peer : Option IpAddr) (cookie : Option Text) (d : Db)
    → (admit c now peer cookie d ≡ granted tt) ↔ LetIn c now peer cookie d
unfolding admit status require_user is_loopback
admit-eq c now peer cookie d = (let_in c now peer cookie d, back)
  where
    back : LetIn c now peer cookie d → admit c now peer cookie d ≡ granted tt
    back (inl e) = rw e refl
    back (inr (inl e)) = rw e refl
    back (inr (inr e)) =
        let seen : (status c now cookie d).0 ≡ true = ap (λ x. x.0) e in
        let set : (status c now cookie d).1 ≡ true = ap (λ x. x.1) e in ground (arith, seen, set)

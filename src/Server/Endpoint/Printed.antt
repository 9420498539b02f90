-- ===== src/Server/Endpoint/Printed.antt =====
-- An endpoint that is printed as host:port is read back.
use sis_op.Base.{
  ℕ, zero, suc, ◌+◌, ◌*◌, ◌/◌, ◌%◌, ◌^◌, ◌<◌, ◌≤◌, ◌≡◌, refl, ap, ◌∙◌, true, false, none, some, [],
  ◌∷◌, ◌++◌, drop, length, ltb, ltb→lt, lt→ltb, ◌==◌, Bool-cases, inl, inr, arith, take-append,
}
use sis_op.Base.Keys.{Bytes}
use sis_op.Protocol.Decimal.{digits, to_string}
use sis_op.Files.Names.{all_chars}
use sis_op.Server.Accounts.{is_digit, decimal}
use sis_op.Server.Health.{Endpoint, key}
use sis_op.Server.Endpoint.{parse_port, last_colon, parse_endpoint}

ge_of_ltb : (a b : ℕ) → ltb a b ≡ false → b ≤ a
ge_of_ltb a b h = ground arith

-- The digits of a number, read back.
decimal-digits :
    (fuel n : ℕ) (acc : Bytes) → n < fuel → decimal 0 (digits fuel n acc) ≡ decimal n acc
unfolding digits decimal
decimal-digits zero n acc h = absurd (omega arith)
decimal-digits (suc fuel) n acc h = elim (Bool-cases (ltb n 10)) [
  | inl small ↦ rw small (ap (λ m. decimal m acc) (omega (arith, ltb→lt n 10 small)))
  | inr large ↦ rw large (
      decimal-digits fuel (n / 10) _ (omega (arith, ge_of_ltb n 10 large))
      ∙ ap (λ m. decimal m acc) (omega arith))
]

digit-cons :
    (n : ℕ) (acc : Bytes)
    → all_chars is_digit acc ≡ true
    → all_chars is_digit ((b'0' + n % 10) ∷ acc) ≡ true
unfolding all_chars
digit-cons n acc h = ground (arith, h)

digits-digit :
    (fuel n : ℕ) (acc : Bytes)
    → all_chars is_digit acc ≡ true
    → all_chars is_digit (digits fuel n acc) ≡ true
unfolding digits all_chars
digits-digit zero n acc h = h
digits-digit (suc fuel) n acc h = elim (Bool-cases (ltb n 10)) [
  | inl small ↦ rw small (digit-cons n acc h)
  | inr large ↦ rw large (digits-digit fuel (n / 10) _ (digit-cons n acc h))
]

abbrev pow : ℕ → ℕ
pow zero = 1
pow (suc k) = 10 * pow k

length-digits :
    (k fuel n : ℕ) (acc : Bytes)
    → n < fuel
    → n < 10 * pow k
    → length (digits fuel n acc) ≤ suc k + length acc
unfolding digits
length-digits k zero n acc f h = absurd (omega arith)
length-digits zero (suc fuel) n acc f h = rw (lt→ltb n 10 (omega arith)) (omega arith)
length-digits (suc k) (suc fuel) n acc f h = elim (Bool-cases (ltb n 10)) [
  | inl small ↦ rw small (omega arith)
  | inr large ↦
      let rest =
        length-digits k fuel (n / 10) ((b'0' + n % 10) ∷ acc) (omega (arith, ge_of_ltb n 10 large))
          (omega arith) in
      rw large (omega (arith, rest))
]

-- The text of a number is not empty.
length-digits-positive :
    (fuel n : ℕ) (acc : Bytes) → n < fuel → 1 + length acc ≤ length (digits fuel n acc)
unfolding digits
length-digits-positive zero n acc f = absurd (omega arith)
length-digits-positive (suc fuel) n acc f = elim (Bool-cases (ltb n 10)) [
  | inl small ↦ rw small (omega arith)
  | inr large ↦
      let rest =
        length-digits-positive fuel (n / 10) ((b'0' + n % 10) ∷ acc)
          (omega (arith, ge_of_ltb n 10 large)) in
      rw large (omega (arith, rest))
]

-- A text of one to five digits, as parse_port reads it.
parse_port-digits :
    (t : Bytes) (port : ℕ)
    → decimal 0 t ≡ port
    → 1 ≤ length t
    → length t ≤ 5
    → all_chars is_digit t ≡ true
    → 0 < port
    → port < 2 ^ 16
    → parse_port t ≡ some port
unfolding parse_port
parse_port-digits t port value long short all_digits positive fits =
    rw (all_digits, value, parse_port) (ground arith)

-- A port that is printed is read back.
parse_port-to_string :
    (port : ℕ) → 0 < port → port < 2 ^ 16 → parse_port (to_string port) ≡ some port
unfolding to_string decimal all_chars
parse_port-to_string port positive fits =
    parse_port-digits (to_string port) port (decimal-digits (suc port) port [] (omega arith))
      (length-digits-positive (suc port) port [] (omega arith))
      (length-digits 4 (suc port) port [] (omega arith) (omega arith))
      (digits-digit (suc port) port [] refl) positive fits

not_colon : (c : ℕ) → is_digit c ≡ true → (c == b':') ≡ false
not_colon c h = ground arith

to_string-digit : (n : ℕ) → all_chars is_digit (to_string n) ≡ true
unfolding to_string all_chars
to_string-digit n = digits-digit (suc n) n [] refl

last_colon-digits : (t : Bytes) → all_chars is_digit t ≡ true → last_colon t ≡ none
unfolding last_colon all_chars
last_colon-digits [] h = refl
last_colon-digits (c ∷ cs) h = elim (Bool-cases (is_digit c)) [
  | inl digit ↦ rw (last_colon-digits cs (rw digit at h)) (rw (not_colon c digit) refl)
  | inr other ↦ cc (rw other at h)
]

last_colon-append :
    (host t : Bytes) → last_colon t ≡ none → last_colon (host ++ (b':' ∷ t)) ≡ some (length host)
unfolding last_colon
last_colon-append [] t none_there = rw none_there refl
last_colon-append (c ∷ host) t none_there = rw (last_colon-append host t none_there) refl

drop-suc : (host : Bytes) (c : ℕ) (t : Bytes) → drop (suc (length host)) (host ++ (c ∷ t)) ≡ t
drop-suc [] c t = refl
drop-suc (h ∷ host) c t = drop-suc host c t

-- An endpoint with a host and a port between 1 and 65535 that is printed as host:port is read back as it was, whatever colons the host has.
pub parse_endpoint-key :
    (server : Endpoint)
    → (length server.host == 0) ≡ false
    → 0 < server.port
    → server.port < 2 ^ 16
    → parse_endpoint (key server) ≡ some server
unfolding parse_endpoint key
parse_endpoint-key server named positive fits =
    let port = to_string server.port in
    let colon =
      last_colon-append server.host port (last_colon-digits port (to_string-digit server.port)) in
    let read = parse_port-to_string server.port positive fits in
    rw colon (
      rw named
        (rw (take-append server.host (b':' ∷ port), drop-suc server.host b':' port, read) refl))

-- ===== src/Async/Port.antt =====
-- `main` of hw4/tcp_asio_server/main.cpp, and the port that it listens at.
use cpp_network_homework.Prelude.{
  ℕ, ◌-◌, ◌^◌, ◌≤◌, ◌<◌, ◌≡◌, refl, sym, ap, ap₂, subst, ◌∙◌, Bool, true, not, Option, none, some,
  List, [], ◌∷◌, arith, ltb, if◌then◌else◌, le→leb, Bytes,
}
use cpp_network_homework.Text.Strip.{strip_left}
use cpp_network_homework.Text.Number.{
  ℤ, pos, negsuc, is_digit, digits_value, starts_digit, is_negative, after_sign, int_max, fits_int,
  signed, to_uint16,
}
use cpp_network_homework.Text.Decimal.{decimal, IsDigits, decimal-value, decimal-cons}
use cpp_network_homework.Text.Command.{
  strip_left_tight, is_ws_of_digit, not-is_negative, after_sign_digit,
}

-- `std::atoi`: a text that is no number gives 0, and a number that does not fit an `int` is
-- undefined behaviour, `none`.
unfoldable pub atoi_signed : Bool → Bytes → Option ℤ
atoi_signed neg s =
    if not (starts_digit s)
    then some (pos 0)
    else if fits_int neg (digits_value 0 s)
    then some (signed neg (digits_value 0 s))
    else none

unfoldable pub atoi_from : Bytes → Option ℤ
atoi_from s = atoi_signed (is_negative s) (after_sign s)

unfoldable pub atoi : Bytes → Option ℤ
atoi s = atoi_from (strip_left s)

-- `static_cast<std::int16_t>`.
unfoldable pub to_int16 : ℤ → ℤ
to_int16 z = let u = to_uint16 z in if ltb u (2 ^ 15) then pos u else negsuc (2 ^ 16 - 1 - u)

-- The `short` becomes an `unsigned short` in the endpoint.
unfoldable pub port_of : ℤ → ℕ
port_of z = to_uint16 (to_int16 z)

-- The usage and the result 1, undefined behaviour, an exception that is caught, with the result 0,
-- or a server at this port.
pub data Ended : Type 0 where
  usage undefined caught : Ended
  serves : ℕ → Ended

-- The acceptor throws if it cannot listen at the port.
serve_at : (ℕ → Bool) → Option ℤ → Ended
serve_at listens none = undefined
serve_at listens (some z) = if listens (port_of z) then serves (port_of z) else caught

pub main : List Bytes → (ℕ → Bool) → Ended
main (program ∷ port ∷ []) listens = serve_at listens (atoi port)
main _ listens = usage

port_of-to_uint16 : (z : ℤ) → port_of z ≡ to_uint16 z
unfolding port_of to_int16 to_uint16
port_of-to_uint16 (pos n) = ground arith
port_of-to_uint16 (negsuc n) = ground arith

atoi_digits :
    (c : ℕ) (cs : Bytes)
    → is_digit c ≡ true
    → digits_value 0 (c ∷ cs) ≤ int_max
    → atoi (c ∷ cs) ≡ some (pos (digits_value 0 (c ∷ cs)))
unfolding atoi atoi_from atoi_signed starts_digit fits_int signed
atoi_digits c cs h b =
    ap atoi_from (strip_left_tight c cs (is_ws_of_digit c h))
    ∙ (ap₂ atoi_signed (not-is_negative c cs h) (after_sign_digit c cs h)
        ∙ rw (h, le→leb _ _ b) refl)

atoi-decimal : (n : ℕ) → n ≤ int_max → atoi (decimal n) ≡ some (pos n)
atoi-decimal n b =
    let (c, cs, e) = decimal-cons n in
    let (digits, v) = decimal-value n in
    let first : is_digit c ≡ true = (subst IsDigits e digits).0 in
    let worth : digits_value 0 (c ∷ cs) ≡ n = ap (digits_value 0) (sym e) ∙ v in
    ap atoi e ∙ (atoi_digits c cs first (omega arith) ∙ ap (λ k. some (pos k)) worth)

-- The server listens at the port that its argument names, for every port number, where that port is
-- free: neither the cast to `std::int16_t` nor the conversion back changes it. Where it is not free,
-- the program ends by an exception that it catches.
pub main-decimal :
    (program : Bytes) (n : ℕ) (listens : ℕ → Bool)
    → n < 2 ^ 16
    → main (program ∷ decimal n ∷ []) listens ≡ (if listens n then serves n else caught)
unfolding main serve_at
main-decimal program n listens h =
    let e = atoi-decimal n (omega arith) in
    let p : port_of (pos n) ≡ n = port_of-to_uint16 (pos n) ∙ unfold to_uint16 in omega arith in
    ap (serve_at listens) e ∙ ap (λ k. if listens k then serves k else caught) p

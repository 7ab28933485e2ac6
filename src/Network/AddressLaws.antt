-- ===== src/Network/AddressLaws.antt =====
-- Ports that are read back from where they were written.
use ovm_next.Base.{
  ℕ, ◌<◌, ltb, Text, ◌==◌, decimal, value, value-decimal, decimal-cons, all_digits-decimal, true,
  ◌∷◌, ◌++◌, some, ◌≡◌, refl, arith,
}
use ovm_next.Build.Url.{Url}
use ovm_next.Network.HostPort.{cut_last-append, has_char-digits}
use ovm_next.Network.Address.{atoi, url_port}

pub atoi-decimal : (n : ℕ) → n < 65536 → atoi (decimal n) ≡ some n
unfolding atoi ◌==◌
atoi-decimal n small =
    let (d, t, e) = decimal-cons n in
    let read : value 0 (d ∷ t) ≡ some n = rw⁻¹ e (value-decimal n) in
    let fits : ltb n 9223372036854775808 ≡ true = ground arith in rw (e, read, fits) refl

pub url_port-decimal :
    (url : Url) (host : Text) (n : ℕ)
    → url.host ≡ host ++ b':' ∷ decimal n
    → url_port url ≡ decimal n
unfolding url_port
url_port-decimal url host n e =
    rw
      (
        e,
        cut_last-append b':' host (decimal n)
            (has_char-digits b':' (decimal n) refl (all_digits-decimal n)),
        all_digits-decimal n,
      )
      refl

-- ===== src/Disk/Paths/Temporary.antt =====
-- Temporary files of one entry have different names where their stamps differ.
use edge_cdn_store.Common.{ℕ, ◌≡◌, sym, ap, ◌∙◌, [], ◌∷◌, ◌++◌, drop, arith}
use edge_cdn_store.Common.Text.{Text, decimal}
use edge_cdn_store.Common.Str.{split_first}
use edge_cdn_store.Common.Str.Split.{split_first-append, contains_char-decimal}
use edge_cdn_store.Common.Str.Number.{decimal_injective}
use edge_cdn_store.Disk.Miss.{Stamp, tmp_name}

append_cancel : (s t u : Text) → s ++ t ≡ s ++ u → t ≡ u
append_cancel [] t u e = e
append_cancel (c ∷ s) t u e = append_cancel s t u (ap (drop 1) e)

stamps_split :
    (m n m' n' : ℕ)
    → decimal m ++ b'-' ∷ decimal n ≡ decimal m' ++ b'-' ∷ decimal n'
    → (decimal m ≡ decimal m') × (decimal n ≡ decimal n')
stamps_split m n m' n' e =
    let left =
      split_first-append b'-' (decimal m) (decimal n)
        (contains_char-decimal m b'-' (omega arith)) in
    let right =
      split_first-append b'-' (decimal m') (decimal n')
        (contains_char-decimal m' b'-' (omega arith)) in
    let same = sym left ∙ ap (split_first b'-') e ∙ right in ground (arith, same)

pub tmp_name_injective : (hint : Text) (t t' : Stamp) → tmp_name hint t ≡ tmp_name hint t' → t ≡ t'
unfolding tmp_name
tmp_name_injective hint t t' e =
    let rest = ap (drop 5) (append_cancel hint _ _ e) in
    let (pids, nanos) = stamps_split t.pid t.nanos t'.pid t'.nanos rest in
    let p = decimal_injective t.pid t'.pid pids in
    let n = decimal_injective t.nanos t'.nanos nanos in λ i. record { pid = p i; nanos = n i }

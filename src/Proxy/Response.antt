-- ===== src/Proxy/Response.antt =====
-- Which responses are kept (`response_cache_filter`).
use edge_cdn_store.Common.{
  ℕ, ◌+◌, ◌≤◌, ◌≡◌, ◌↔◌, true, false, ◌++◌, Option, none, some, arith, refl,
}
use edge_cdn_store.Common.Text.{Text, codes}
use edge_cdn_store.Common.Str.{to_ascii_lowercase}
use edge_cdn_store.Common.Str.Search.{contains_text-some, contains_text-append}
use edge_cdn_store.Proxy.{cacheable, response_cache_filter, forbids_store}

-- A response is kept exactly when its status is 2xx and its Cache-Control header does not forbid
-- it; then it is kept for an hour from now.
pub response_cache_filter_iff :
    (status : ℕ) (cc : Option Text) (now expiry created : ℕ)
    → (response_cache_filter status cc now ≡ cacheable expiry created) ↔ (
        (200 ≤ status)
        × (status ≤ 299)
        × (forbids_store cc ≡ false)
        × (expiry ≡ now + 3600)
        × (created ≡ now))
unfolding response_cache_filter
response_cache_filter_iff status cc now expiry created = ground arith

-- There is a Cache-Control header, and no-store stands somewhere in it, in whatever case.
pub record HasNoStore (cc : Option Text) : Type 0 where
  pub value : Text
  pub before : Text
  pub after : Text
  pub given : cc ≡ some value
  pub stands : to_ascii_lowercase value ≡ before ++ (codes "no-store" ++ after)

pub forbids_store-HasNoStore : (cc : Option Text) → forbids_store cc ≡ true → HasNoStore cc
forbids_store-HasNoStore none e = absurd (cc e)
forbids_store-HasNoStore (some v) e =
    let (before, after, same) = contains_text-some (to_ascii_lowercase v) (codes "no-store") e in
    record { value = v; before = before; after = after; given = refl; stands = same }

pub HasNoStore-forbids_store : (cc : Option Text) → HasNoStore cc → forbids_store cc ≡ true
HasNoStore-forbids_store cc h =
    let found = contains_text-append h.before (codes "no-store") h.after in
    rw (h.given, h.stands) found

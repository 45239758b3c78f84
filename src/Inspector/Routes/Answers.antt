-- ===== src/Inspector/Routes/Answers.antt =====
-- What the routes answer, whatever the request is.
use edge_cdn_store.Common.{
  ◌≡◌, ◌≢◌, ◌⊎◌, inl, inr, refl, subst, Bool, true, false, ◌&&◌, ◌||◌, Option, none, some,
  Option-cases, Result, ok, err, arith,
}
use edge_cdn_store.Common.Text.{Text, codes}
use edge_cdn_store.Common.State.{Failure}
use edge_cdn_store.Disk.Statistics.{CacheStatistics}
use edge_cdn_store.Inspector.Path.{PathBuf, starts_with, join}
use edge_cdn_store.Inspector.Files.{Tree, Response, handle_req}
use edge_cdn_store.Inspector.Files.Contained.{IsLawfulTree, Shows, handle_req_contained}
use edge_cdn_store.Inspector.Routes.{
  Warp, Reply, contents, Filtered, cache_contents_path, inspector_routes, or_next, reply_if,
  stats_reply, metrics_reply, show_cache, show_index, show_at, is_some, metrics_path, stats_path,
  health_path, version_path, index, version, health, index_page, cargo_pkg_version,
}

-- Nothing of a file or of a directory is in the answer.
abbrev pub HasNoContents : Result Failure Reply → Type 0
HasNoContents o = (q : Response) → o ≢ ok (contents q)

or_next-some :
    (a b : Filtered) (o : Result Failure Reply) → or_next a b ≡ some o → (a ≡ some o) ⊎ (b ≡ some o)
unfolding or_next
or_next-some none b o h = inr h
or_next-some (some reply) b o h = inl h

reply_if-some :
    (allowed get : Bool) (r o : Result Failure Reply)
    → reply_if (allowed && get) r ≡ some o
    → (get ≡ true) × (r ≡ o)
unfolding reply_if
reply_if-some true true r o h = (refl, cc h)
reply_if-some true false r o h = absurd (cc h)
reply_if-some false get r o h = absurd (cc h)

stats_reply-HasNoContents : (cs : Result Failure CacheStatistics) → HasNoContents (stats_reply cs)
unfolding stats_reply
stats_reply-HasNoContents (ok cs) q e = cc e
stats_reply-HasNoContents (err x) q e = cc e

metrics_reply-HasNoContents : (r : Result Failure Text) → HasNoContents (metrics_reply r)
unfolding metrics_reply
metrics_reply-HasNoContents (ok text) q e = cc e
metrics_reply-HasNoContents (err x) q e = cc e

show_cache-some :
    (T : Tree) (root : PathBuf) (allowed : Bool) (rest : Option Text) (o : Result Failure Reply)
    → show_cache T root allowed rest ≡ some o
    → (tail : Text) × (q : Response) × (rest ≡ some tail)
      × (allowed ≡ true)
      × (handle_req T root tail ≡ some q)
      × (o ≡ ok (contents q))
unfolding show_cache
show_cache-some T root allowed none o h = absurd (cc h)
show_cache-some T root false (some tail) o h = absurd (cc h)
show_cache-some T root true (some tail) o h = elim (Option-cases (handle_req T root tail)) [
  | inl missing ↦ absurd (ground (arith, h))
  | inr (q, found) ↦ (tail, q, refl, refl, found, ground arith)
]

module _ (V : Warp) (T : Tree) (L : IsLawfulTree T) (root : PathBuf)
    (cs : Result Failure CacheStatistics) (exposed : Result Failure Text) where
  -- An answer to a request: to a GET, without anything of a file or a directory; or to a GET or a
  -- HEAD below /cache, with what is at a canonical path below that of the root.
  pub data Answers (r : V.Request) (o : Result Failure Reply) : Type 0 where
    without_contents : V.is_get r ≡ true → HasNoContents o → Answers r o
    with_contents :
        (tail : Text) (q : Response) (path root_canon : PathBuf)
        → V.path cache_contents_path r ≡ some tail
        → (V.is_get r || V.is_head r) ≡ true
        → o ≡ ok (contents q)
        → T.canonicalize root ≡ some root_canon
        → T.canonicalize (join root tail) ≡ some path
        → starts_with path root_canon ≡ true
        → Shows T tail path q
        → Answers r o

  -- A route that needs a GET, and the routes after it.
  tried :
      (r : V.Request) (allowed : Bool) (x : Result Failure Reply) (next : Filtered)
      (o : Result Failure Reply)
      → HasNoContents x
      → or_next (reply_if (allowed && V.is_get r) x) next ≡ some o
      → (next ≡ some o → Answers r o)
      → Answers r o
  tried r allowed x next o bare h otherwise =
      elim (or_next-some (reply_if (allowed && V.is_get r) x) next o h) [
        | inl now ↦
            let (get, same) = reply_if-some allowed (V.is_get r) x o now in
            without_contents get (subst HasNoContents same bare)
        | inr later ↦ otherwise later
      ]

  below_cache :
      (r : V.Request) (o : Result Failure Reply)
      → show_cache T root (V.is_get r || V.is_head r) (V.path cache_contents_path r) ≡ some o
      → Answers r o
  below_cache r o h =
      let (tail, q, here, allowed, served, same) =
        show_cache-some T root (V.is_get r || V.is_head r) (V.path cache_contents_path r) o h in
      let (path, root_canon, rooted, canon, inside, shows) =
        handle_req_contained T L root tail q served in
      with_contents tail q path root_canon here allowed same rooted canon inside shows

  -- Every request that is answered is a GET whose answer has nothing of a file or of a directory,
  -- or a GET or a HEAD below /cache: then what is served is the file or the listed directory at the
  -- canonical path of the root joined with the tail, and this path is below the canonical path of
  -- the root. The files do not change during the request, and a path without metadata cannot be
  -- read.
  pub inspector_routes_contained :
      (r : V.Request) (o : Result Failure Reply)
      → inspector_routes V T root cs exposed r ≡ some o
      → Answers r o
  unfolding inspector_routes show_index show_at
  inspector_routes_contained r o h =
      let below = λ (segment : Text). is_some (V.path segment r) in
      let by_cache = show_cache T root (V.is_get r || V.is_head r) (V.path cache_contents_path r) in
      let by_metrics = or_next (show_at V metrics_path r (metrics_reply exposed)) by_cache in
      let by_stats = or_next (show_at V stats_path r (stats_reply cs)) by_metrics in
      let by_health = or_next (show_at V health_path r (ok (health (codes "ok")))) by_stats in
      let by_version =
        or_next (show_at V version_path r (ok (version cargo_pkg_version))) by_health in
      tried r (V.is_end r) (ok (index index_page)) by_version o (λ q e. cc e) h
        λ h.
          tried r (below version_path) (ok (version cargo_pkg_version)) by_health o (λ q e. cc e) h
            λ h.
              tried r (below health_path) (ok (health (codes "ok"))) by_stats o (λ q e. cc e) h
                λ h.
                  tried r (below stats_path) (stats_reply cs) by_metrics o
                    (stats_reply-HasNoContents cs) h
                    λ h.
                      tried r (below metrics_path) (metrics_reply exposed) by_cache o
                        (metrics_reply-HasNoContents exposed) h (below_cache r o)

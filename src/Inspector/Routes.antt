-- ===== src/Inspector/Routes.antt =====
-- The routes of the inspector (src/inspector/routes.rs).
pub mod Answers
use edge_cdn_store.Common.{
  ℕ, zero, suc, [], ◌∷◌, ◌++◌, Bool, true, false, ◌||◌, ◌&&◌, Option, none, some, Result, ok, err,
}
use edge_cdn_store.Common.Text.{Text, codes}
use edge_cdn_store.Common.State.{Failure}
use edge_cdn_store.Disk.Statistics.{CacheStatistics}
use edge_cdn_store.Inspector.Path.{PathBuf}
use edge_cdn_store.Inspector.Files.{Tree, Response, handle_req}

-- What the routes use of warp: the tests of a request, and what follows the first segment of its
-- path, if it is this one.
pub record Warp : Type 1 where
  pub Request : Type 0
  pub is_end : Request → Bool
  pub is_get : Request → Bool
  pub is_head : Request → Bool
  pub path : Text → Request → Option Text

-- The replies: a page; the version, the health and the statistics, which warp prints as JSON; the
-- text of prometheus; and what `handle_req` answers.
pub data Reply : Type 0 where
  index version health metrics : Text → Reply
  stats : CacheStatistics → Reply
  contents : Response → Reply

abbrev version_path : Text
version_path = codes "version"

abbrev health_path : Text
health_path = codes "health"

abbrev stats_path : Text
stats_path = codes "stats"

abbrev metrics_path : Text
metrics_path = codes "metrics"

abbrev pub cache_contents_path : Text
cache_contents_path = codes "cache"

-- The version of the package.
abbrev pub cargo_pkg_version : Text
cargo_pkg_version = codes "0.1.0"

-- So many spaces, and the rest of a line.
abbrev spaced : ℕ → Text → Text
spaced zero line = line
spaced (suc n) line = b' ' ∷ spaced n line

-- Another line of the index page.
abbrev indented : ℕ → Text → Text
indented n line = b'\n' ∷ spaced n line

abbrev index_link : Text → Text → Text
index_link path label =
    indented 25 (codes "<li><a href=\"/" ++ (path ++ (codes "\">" ++ (label ++ codes "</a></li>"))))

abbrev pub index_page : Text
index_page =
    codes "<html>"
    ++ (indented 21 (codes "<head><title>Edge CDN Disk Cache Inspector</title></head>")
        ++ (indented 21 (codes "<body>")
            ++ (indented 23 (codes "<h1>Edge CDN Disk Cache Inspector</h1>")
                ++ (indented 23 (codes "<ul>")
                    ++ (index_link version_path (codes "Verion")
                        ++ (index_link health_path (codes "Health")
                            ++ (index_link stats_path (codes "Statistics")
                                ++ (index_link metrics_path (codes "Metrics")
                                    ++ (index_link cache_contents_path (codes "Contents")
                                        ++ (indented 23 (codes "</ul>")
                                            ++ (indented 21 (codes "</body>")
                                                ++ indented 19 (codes "</html>"))))))))))))

-- The result of a filter: `none` is its rejection, after which `or` tries the next one.
abbrev pub Filtered : Type 0
Filtered = Option (Result Failure Reply)

or_next : Filtered → Filtered → Filtered
or_next none next = next
or_next (some reply) next = some reply

reply_if : Bool → Result Failure Reply → Filtered
reply_if true r = some r
reply_if false r = none

abbrev is_some : Option Text → Bool
is_some none = false
is_some (some tail) = true

metrics_reply : Result Failure Text → Result Failure Reply
metrics_reply (ok text) = ok (metrics text)
metrics_reply (err e) = err e

stats_reply : Result Failure CacheStatistics → Result Failure Reply
stats_reply (ok cs) = ok (stats cs)
stats_reply (err e) = err e

contents_reply : Option Response → Filtered
contents_reply none = none
contents_reply (some r) = some (ok (contents r))

show_cache : Tree → PathBuf → Bool → Option Text → Filtered
unfolding contents_reply
show_cache T root allowed none = none
show_cache T root false (some tail) = none
show_cache T root true (some tail) = contents_reply (handle_req T root tail)

module _ (V : Warp) where
  show_index : V.Request → Filtered
  unfolding reply_if
  show_index r = reply_if (V.is_end r && V.is_get r) (ok (index index_page))

  -- GET below one of the other paths.
  show_at : Text → V.Request → Result Failure Reply → Filtered
  unfolding reply_if
  show_at segment r = reply_if (is_some (V.path segment r) && V.is_get r)

-- `cs` is the statistics at the time of the request and `exposed` the text that prometheus makes of
-- the metrics; the making of either may panic.
module _ (V : Warp) (T : Tree) (root : PathBuf) (cs : Result Failure CacheStatistics)
    (exposed : Result Failure Text) where
  unfoldable pub inspector_routes : V.Request → Filtered
  unfolding or_next show_index show_at metrics_reply stats_reply show_cache
  inspector_routes r = or_next (show_index V r) (
      or_next (show_at V version_path r (ok (version cargo_pkg_version))) (
        or_next (show_at V health_path r (ok (health (codes "ok")))) (
          or_next (show_at V stats_path r (stats_reply cs)) (
            or_next (show_at V metrics_path r (metrics_reply exposed))
              (show_cache T root (V.is_get r || V.is_head r) (V.path cache_contents_path r))))))

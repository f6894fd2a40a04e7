-- ===== src/Build/Tests.antt =====
-- The tasks, with paths joined by slashes.
use xmq.Base.{◌≡◌, refl, false, none, some, [], ◌∷◌}
use xmq.Js.Text.{lit, join}
use xmq.Js.Decimal.{show}
use xmq.Build.{
  log_bundle, bytes_to_kb, console_error, console_log, exit, pipes, sass, clean, read_files,
  compile_sass, write_files, on_sass_error, read_files_if_any, remove_files,
}

test_log :
    log_bundle (lit "vendor.js") false none 204800
    ≡ console_log (lit "vendor.js 200 KB written") ∷ []
unfolding log_bundle bytes_to_kb show
test_log = refl

test_log_error :
    log_bundle (lit "vendor.js") false (some (lit "no such module")) 0
    ≡ console_error (lit "no such module") ∷ exit 1 ∷ []
unfolding log_bundle
test_log_error = refl

test_sass :
    pipes (join (lit "/")) sass
    ≡ (read_files (lit "static/css/*.*css" ∷ [])
        ∷ compile_sass on_sass_error
        ∷ write_files (lit "static/build/")
        ∷ [])
      ∷ []
unfolding pipes join
test_sass = refl

test_clean :
    pipes (join (lit "/")) clean
    ≡ (read_files_if_any (lit "static/build" ∷ []) ∷ remove_files ∷ []) ∷ []
unfolding pipes join
test_clean = refl

-- ===== src/Build.antt =====
-- xmqadmin/gulpfile.js: the tasks that build the page. A pipe is the list of its stages, which the
-- plugins run; `join` stands for `path.join`.
mod Tests
use xmq.Base.{
  ℕ, ◌/◌, Bool, true, false, not, Option, none, some, List, [], ◌∷◌, ◌++◌, if◌then◌else◌,
}
use xmq.Js.Text.{Text, lit}
use xmq.Js.Decimal.{show}

abbrev pub root_folder : Text
root_folder = lit "static"

abbrev pub vendor_modules : List Text
vendor_modules = lit "backbone" ∷ lit "jquery" ∷ lit "underscore" ∷ lit "bootbox" ∷ []

abbrev pub vendor_target : Text
vendor_target = lit "vendor.js"

abbrev pub vendor_folder : Text
vendor_folder = lit "./static/build/"

-- The modules that a bundle leaves out, with the vendor's.
unfoldable pub exclude_vendor : List Text → List Text
exclude_vendor excluded = excluded ++ vendor_modules

unfoldable pub bytes_to_kb : ℕ → ℕ
bytes_to_kb bytes = bytes / 1024

pub data Output : Type 0 where
  console_error console_log : Text → Output
  exit : ℕ → Output
  notify : Text → Output
  emit_end : Output

-- What a bundle's callback does with the bundle's size, or with its error.
unfoldable pub log_bundle : Text → Bool → Option Text → ℕ → List Output
unfolding bytes_to_kb
log_bundle filename watching (some err) size =
    console_error err ∷ (if watching then [] else exit 1 ∷ [])
log_bundle filename watching none size =
    if watching
    then []
    else console_log (filename ++ (lit " " ++ (show (bytes_to_kb size) ++ lit " KB written"))) ∷ []

-- The handlers of errors: that of the styles does not end the stream.
abbrev pub on_sass_error : List Output
on_sass_error = notify (lit "Sass Compile Error") ∷ []

abbrev pub on_js_error : List Output
on_js_error = notify (lit "JS Compile Error") ∷ emit_end ∷ []

pub data Stage : Type 0 where
  read_files read_files_if_any : List Text → Stage
  bundle_entry : Text → List Text → Stage
  bundle_modules : List Text → Stage
  name_file : Text → Stage
  buffered load_maps minify remove_files : Stage
  compile_sass : List Output → Stage
  write_maps write_files : Text → Stage
  handle_error : List Output → Stage

pub data Task : Type 0 where
  sass browserify sync_static_assets vendor_build_js build watch clean help default_task : Task

module _ (join : List Text → Text) where
  unfoldable pub sass_task : Text → Text → List Stage
  sass_task root input =
      read_files (join (root ∷ lit "css" ∷ input ∷ []) ∷ [])
      ∷ compile_sass on_sass_error
      ∷ write_files (join (root ∷ lit "build/" ∷ []))
      ∷ []

  unfoldable pub browserify_task : Text → Text → List Stage
  unfolding exclude_vendor
  browserify_task root input =
      bundle_entry (lit "./" ++ join (root ∷ lit "js" ∷ input ∷ [])) (exclude_vendor [])
      ∷ name_file input
      ∷ buffered
      ∷ load_maps
      ∷ minify
      ∷ handle_error on_js_error
      ∷ write_maps (lit "./")
      ∷ write_files (join (root ∷ lit "build/" ∷ []))
      ∷ []

  -- The patterns of files that are watched, and the task that a change of one runs.
  unfoldable pub watch_task : Text → List (List Text × Task)
  watch_task root =
      (join (root ∷ lit "sass/**/*.scss" ∷ []) ∷ [], sass)
      ∷ (
        join (root ∷ lit "js/**/*.js" ∷ []) ∷ join (root ∷ lit "js/**/*.hbs" ∷ []) ∷ [],
        browserify,
      )
      ∷ (
        join (root ∷ lit "html/**" ∷ []) ∷ join (root ∷ lit "fonts/**" ∷ []) ∷ [],
        sync_static_assets,
      )
      ∷ []

  unfoldable pub clean_task : List Text → List Stage
  clean_task paths = read_files_if_any paths ∷ remove_files ∷ []

  unfoldable pub vendor_task : List Stage
  vendor_task =
      bundle_modules vendor_modules
      ∷ name_file vendor_target
      ∷ buffered
      ∷ minify
      ∷ handle_error on_js_error
      ∷ write_files vendor_folder
      ∷ []

  unfoldable pub sync_task : List Stage
  sync_task =
      read_files (
        join (root_folder ∷ lit "html/**" ∷ [])
        ∷ join (root_folder ∷ lit "fonts/**" ∷ [])
        ∷ join (root_folder ∷ lit "img/**" ∷ [])
        ∷ [])
      ∷ write_files (join (root_folder ∷ lit "build" ∷ []))
      ∷ []

  -- The pipes that a task runs, in an order that `parallel` leaves open; `watch` goes on to watch.
  unfoldable pub pipes : Task → List (List Stage)
  unfolding sass_task browserify_task clean_task vendor_task sync_task
  pipes sass = sass_task root_folder (lit "*.*css") ∷ []
  pipes browserify = browserify_task root_folder (lit "main.js") ∷ []
  pipes sync_static_assets = sync_task ∷ []
  pipes vendor_build_js = vendor_task ∷ []
  pipes build =
      sass_task root_folder (lit "*.*css")
      ∷ browserify_task root_folder (lit "main.js")
      ∷ sync_task
      ∷ vendor_task
      ∷ []
  pipes watch =
      sass_task root_folder (lit "*.*css")
      ∷ browserify_task root_folder (lit "main.js")
      ∷ sync_task
      ∷ vendor_task
      ∷ []
  pipes clean = clean_task (join (root_folder ∷ lit "build" ∷ []) ∷ []) ∷ []
  pipes help = []
  pipes default_task = []

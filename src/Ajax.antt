-- ===== src/Ajax.antt =====
-- xmqadmin/static/js/lib/ajax_setup.js: what every request is given before it is sent.
mod Tests
pub mod Filter
use xmq.Base.{ℕ, ◌*◌, Option, none, some, if◌then◌else◌}
use xmq.Js.Text.{Text, lit, ◌===◌}
use xmq.Vendor.{Underscore}

-- The options of a request that the filter reads or sets.
pub record Options : Type 0 where
  pub headers : Option (Text → Option Text)
  pub timeout : Option ℕ
  pub content_type : Option Text

-- The headers of the page, where `user_agent` is its global.
unfoldable pub page_headers : Text → Text → Option Text
unfolding ◌===◌
page_headers user_agent k =
    if k === lit "X-UserAgent"
    then some user_agent
    else if k === lit "Accept"
    then some (lit "application/vnd.xmq; version=1.0")
    else none

-- `options['headers'] || {}`
abbrev pub headers_or_empty : Option (Text → Option Text) → Text → Option Text
headers_or_empty none k = none
headers_or_empty (some h) k = h k

unfoldable pub prefilter : Underscore → Text → Options → Options
unfolding page_headers
prefilter u user_agent options = record {
  headers = some (u.defaults (headers_or_empty options.headers) (page_headers user_agent));
  timeout = some (20 * 1000);
  content_type = some (lit "application/json");
}

-- ===== src/Ajax/Tests.antt =====
-- The filter at a concrete request.
use xmq.Base.{◌≡◌, refl, none, some, if◌then◌else◌}
use xmq.Js.Text.{lit, ◌===◌}
use xmq.Vendor.{plain_underscore}
use xmq.Ajax.{Options, headers_or_empty, prefilter}

abbrev own_accept : Options
own_accept = record {
  headers = some (λ k. if k === lit "Accept" then some (lit "text/plain") else none);
  timeout = none;
  content_type = none;
}

test_accept :
    headers_or_empty (prefilter plain_underscore (lit "xmq") own_accept).headers (lit "Accept")
    ≡ some (lit "text/plain")
unfolding prefilter ◌===◌
test_accept = refl

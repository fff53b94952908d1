-- ===== src/Api/Page.antt =====
-- `subPage` of internal/api/subpage.go: what the page's template is given.
pub mod Units
use Prim.Native.String
use node_panel.Prelude.{
  ℕ, zero, suc, ◌+◌, ◌*◌, ◌/◌, ◌%◌, ◌^◌, String, Option, none, some, ◌&&◌, ◌==◌, leb, ltb, eqb,
  if◌then◌else◌,
}
use node_panel.Prelude.Int.{ℤ, pos, pos_part, leb_ℤ, ltb_ℤ, mul64, div64}
use node_panel.Prelude.Text.{◌<>◌, decimal}
use node_panel.Prelude.Float.{round_half_even, float64}
use node_panel.Runtime.{Env}
use node_panel.Runtime.Exec.{Result, ok, err, Exec, ◌>>=◌, return}
use node_panel.Api.Response.{
  Response, Handler, respond, plain, sub_page, SubInfoResponse, SubPageData,
}
use node_panel.Api.Connection.{load_sub_info_by_token}

-- The words are written in code points.
unfoldable pub status_fa : String → String
status_fa s =
    if s == "active"
    then "\u{641}\u{639}\u{627}\u{644}"
    else if s == "suspended"
    then "\u{645}\u{639}\u{644}\u{642}"
    else if s == "expired"
    then "\u{645}\u{646}\u{642}\u{636}\u{6cc}"
    else s

-- The loop of `humanBytes`: the unit that is reached from `i` on, with the units left after it.
-- Dividing a double by 1024 is exact, so `f >= 1024` compares the double itself.
unfoldable pub unit_from : ℕ → ℕ → ℕ → ℕ
unit_from zero i f = i
unit_from (suc left) i f =
    let further = unit_from left (i + 1) f in if ltb f (1024 ^ (i + 1)) then i else further

unfoldable pub unit_of : ℕ → ℕ
unfolding unit_from
unit_of n = unit_from 4 0 (float64 n)

-- `u[i]` of "BKMGT"
abbrev pub unit_letter : ℕ → String
unit_letter i =
    if eqb i 0
    then "B"
    else if eqb i 1
    then "K"
    else if eqb i 2
    then "M"
    else if eqb i 3
    then "G"
    else "T"

abbrev pub tenths : ℕ → String
tenths t = decimal (t / 10) <> "." <> decimal (t % 10)

-- the tenths of the unit `i` that `%.1f` shows
abbrev pub tenths_of : ℕ → ℕ → ℕ
tenths_of n i = round_half_even (10 * float64 n) (1024 ^ i)

unfoldable pub human_bytes : ℤ → String
unfolding float64 round_half_even unit_of
human_bytes n =
    if leb_ℤ n (pos 0)
    then "0"
    else let i = unit_of (pos_part n) in
      if eqb i 0
      then decimal (pos_part n) <> " B"
      else tenths (tenths_of (pos_part n) i) <> " " <> unit_letter i <> "B"

abbrev pub at_most_100 : ℤ → ℤ
at_most_100 pct = if ltb_ℤ (pos 100) pct then pos 100 else pct

unfoldable pub pct_of : ℤ → ℤ → ℤ
pct_of used quota =
    if ltb_ℤ (pos 0) quota then at_most_100 (div64 (mul64 used (pos 100)) quota) else pos 0

-- The answer for a token that is not there is plain text here.
abbrev plain_error : Result Response SubInfoResponse → Exec Response SubInfoResponse
plain_error (ok info) w = (ok info, w)
plain_error (err e) w = (err (respond 404 (plain "subscription not found")), w)

module _ ⦃env : Env⦄ where
  abbrev pretty : String → Option String → String
  pretty given none = given
  pretty given (some out) = out

  unfoldable pub page_data : SubInfoResponse → SubPageData
  unfolding status_fa human_bytes pct_of
  page_data info = record {
    node_name = info.node_name;
    status = info.status;
    status_fa = status_fa info.status;
    used = human_bytes info.used_bytes;
    quota = human_bytes info.quota_bytes;
    remaining = human_bytes info.remain_bytes;
    pct = pct_of info.used_bytes info.quota_bytes;
    expiry = if ltb_ℤ (pos 0) info.end_at then env.date_text info.end_at else "—";
    days_left = info.days_left;
    grpc_address = info.grpc_address;
    protocol = info.protocol;
    api_key = info.api_key;
    cert_pem = info.cert_pem;
    inbounds = pretty info.inbounds (env.json_indent info.inbounds);
  }

  unfoldable pub sub_page_handler : String → Handler
  unfolding page_data
  sub_page_handler token w =
      let (loaded, w') = load_sub_info_by_token token w in
      (plain_error loaded >>= λ info. return (respond 200 (sub_page (page_data info)))) w'

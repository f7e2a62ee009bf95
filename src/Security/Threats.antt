-- ===== src/Security/Threats.antt =====
-- The counted rules of `threats` in backend/src/middlewares/threatDetect.js that the sign-in reports.
use havale_khodro.Prelude.{ℕ, ◌==◌, if◌then◌else◌, ◌*◌, Option, none}
use havale_khodro.Security.Counters.{hit, hit_distinct}
use havale_khodro.Schema.Entities.{Env, Db}
use havale_khodro.Security.Events.{record_event, address}
use havale_khodro.Schema.Enums.{brute_force, password_spray}

abbrev pub brute_force_window_ms : ℕ
brute_force_window_ms = 15 * 60 * 1000

abbrev pub spray_window_ms : ℕ
spray_window_ms = 30 * 60 * 1000

abbrev pub brute_force_threshold : ℕ
brute_force_threshold = 5

abbrev pub spray_threshold : ℕ
spray_threshold = 4

unfoldable pub count_brute_force : Env → ℕ → Option ℕ → Db → Db
unfolding hit record_event
count_brute_force env username ip s =
    let (n, hits) = hit brute_force_window_ms username env.now s.brute_force_hits in
    let t = record s { brute_force_hits = hits } in
    if n == brute_force_threshold then record_event env brute_force ip none t else t

unfoldable pub count_spray : Env → ℕ → Option ℕ → Db → Db
unfolding hit_distinct record_event
count_spray env username ip s =
    let (n, hits) = hit_distinct spray_window_ms (address ip) username env.now s.spray_hits in
    let t = record s { spray_hits = hits } in
    if n == spray_threshold then record_event env password_spray ip none t else t

-- `loginFailed`: a wrong password, counted for the user name and for the address.
unfoldable pub login_failed_threat : Env → ℕ → Option ℕ → Db → Db
unfolding count_brute_force count_spray
login_failed_threat env username ip s =
    count_spray env username ip (count_brute_force env username ip s)

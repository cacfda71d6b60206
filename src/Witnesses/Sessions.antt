-- ===== src/Witnesses/Sessions.antt =====
-- The controller on concrete inputs.
use wifigateway_server.Base.{
  Option, ◌↔◌, ◌++◌, List, Bool, true, ℕ, ◌≡◌, refl, none, some, [], ◌∷◌, map,
}
use wifigateway_server.Base.Int.{pos}
use wifigateway_server.Qt.Text.{QString, codes}
use wifigateway_server.Qt.Map.{lookup}
use wifigateway_server.Controller.Getters.{Reads, getters_lem}
use wifigateway_server.Session.{Session, blank_session, started, paused, ended}
use wifigateway_server.FileWatcher.{File}
use wifigateway_server.Controller.State.{Controller, new_controller}
use wifigateway_server.Controller.Operations.{
  start_session, pause_session, play_session, end_session, delete_session,
}
use wifigateway_server.Controller.Settings.{
  clear_sessions, set_quota, set_bandwidth, get_session, get_all_sessions, get_ips,
}
use wifigateway_server.Controller.Timer.{tick}
use wifigateway_server.Controller.Calls
use wifigateway_server.Controller.Calls.{Call, serve}
use wifigateway_server.Controller.Machine.{start, pause, play, end, bounce}
use wifigateway_server.Controller.Lifetime.Heap.{Inv}
use wifigateway_server.Controller.Lifetime.Serve.{serve_safe}
use wifigateway_server.Controller.Lifetime.Cleanup.{clear_sessions_lem}
use wifigateway_server.Controller.Lifecycle.{Construction, live}
use wifigateway_server.Controller.Lifecycle.Clean.{Leaves, live_clean}
use wifigateway_server.Controller.Reentrancy.{nested, nested-Calm, start_deleted}
use wifigateway_server.Controller.Refinement.Host.{quiet, view, put}
use wifigateway_server.Controller.Refinement.Steady.{steady}
use wifigateway_server.Controller.Refinement.Sessions.{operations_lem}
use wifigateway_server.Controller.Refinement.Delete.{deleted, delete_session_lem}
use wifigateway_server.Controller.Refinement.Bounce.{
  setters_lem, start_session_new, by_default, entered,
}
use wifigateway_server.Controller.Refinement.Round.{Holds, Ticked}
use wifigateway_server.Controller.Refinement.Whole.{tick_lem}
use wifigateway_server.Controller.Timeline.{all_succeed}
use wifigateway_server.Controller.Script.{add_host_command, remove_host_command, clean_up_command}
use wifigateway_server.Controller.Script.Words.{words, commands_lem}
use wifigateway_server.Qt.Number.{number, number_int}
use wifigateway_server.Controller.Access.{LastAsked, has_started}
use wifigateway_server.Controller.Access.Serve.{serve_admits}
use wifigateway_server.Witnesses.{
  dir, client, granting, no_sessions, session_in, holding, nobody, holding-Inv, found_client, calls,
  meanwhile,
}

getters_example :
    (ss : List Session) × (get_all_sessions (holding (session_in started))
      ≡ some (ss, holding (session_in started)))
    × (get_ips (holding (session_in started))
        ≡ some (map (λ (s : Session). s.ip) ss, holding (session_in started)))
    × Reads (holding (session_in started)).sessions ss (holding (session_in started))
    × ((ip : QString) (p : ℕ) (s : Session)
        → Holds (holding (session_in started)) ip p s
        → get_session ip (holding (session_in started)) ≡ some (s, holding (session_in started)))
    × ((ip : QString)
        → lookup ip (holding (session_in started)).sessions ≡ none
        → get_session ip (holding (session_in started))
          ≡ some (blank_session, holding (session_in started)))
getters_example = getters_lem (holding (session_in started)) (holding-Inv started)

serve_safe_example :
    (d : Controller) × (serve (nested dir all_succeed meanwhile) calls new_controller
      ≡ some (tt, d))
    × Inv d
serve_safe_example =
    serve_safe (nested dir all_succeed meanwhile)
      (nested-Calm dir all_succeed meanwhile (λ r. r, (λ r. r, tt))) calls

serve_admits_example :
    (d : Controller) × (serve (quiet dir granting) calls new_controller ≡ some (tt, d))
    × ((ip : QString) (b : Bool) → LastAsked dir granting ip b d.issued ↔ (b ≡ has_started ip d))
serve_admits_example = serve_admits dir granting calls

commands_example :
    (words (add_host_command dir client 10 (pos 5))
      ≡ (dir ++ codes "/wifigateway-script/gw_add_host.sh")
        ∷ client
        ∷ number 10
        ∷ number_int (pos 5)
        ∷ [])
    × (words (remove_host_command dir client)
        ≡ (dir ++ codes "/wifigateway-script/gw_remove_host.sh") ∷ client ∷ [])
    × (words (clean_up_command dir) ≡ (dir ++ codes "/wifigateway-script/gw_clean_up.sh") ∷ [])
commands_example = commands_lem dir client 10 (pos 5) refl refl refl

clear_sessions_example :
    clear_sessions (holding (session_in started))
    ≡ some (tt, record (holding (session_in started)) { sessions = []; cell = λ _. none })
clear_sessions_example = clear_sessions_lem (holding (session_in started)) (holding-Inv started)

start_deleted_example :
    start_session
      (nested dir all_succeed (Calls.delete_call client ∷ []))
      client
      (holding (session_in ended))
    ≡ none
start_deleted_example =
    start_deleted dir all_succeed 0 (session_in ended) (holding (session_in ended))
      (holding-Inv ended) (found_client (session_in ended)) refl refl refl refl refl

tick_example :
    (d : Controller) × (tick (quiet dir (steady all_succeed)) (holding (session_in started))
      ≡ some (tt, d))
    × Inv d
    × ((ip : QString) (p : ℕ) (s : Session)
        → Holds (holding (session_in started)) ip p s
        → Ticked dir all_succeed ip p s d)
    × ((ip : QString)
        → lookup ip (holding (session_in started)).sessions ≡ none
        → lookup ip d.sessions ≡ none)
tick_example = tick_lem dir all_succeed (holding (session_in started)) (holding-Inv started)

operations_example :
    let s = session_in paused in
    let c = holding s in
    (let (r, w) = start dir granting (view s c) in
      start_session (quiet dir granting) client c ≡ some (r, put 0 w c))
    × (let (r, w) = pause dir granting (view s c) in
        pause_session (quiet dir granting) client c ≡ some (r, put 0 w c))
    × (let (r, w) = play dir granting (view s c) in
        play_session (quiet dir granting) client c ≡ some (r, put 0 w c))
    × (let (r, w) = end dir granting (view s c) in
        end_session (quiet dir granting) client c ≡ some (r, put 0 w c))
operations_example =
    operations_lem dir granting 0 (session_in paused) (holding (session_in paused)) refl
      (found_client (session_in paused))

delete_session_example :
    let s = session_in started in
    let c = holding s in
    let (r, w) = end dir granting (view s c) in
    delete_session (quiet dir granting) client c ≡ some (r, deleted client 0 r (put 0 w c))
delete_session_example =
    delete_session_lem dir granting 0 (session_in started) (holding (session_in started))
      (holding-Inv started) refl (found_client (session_in started))

setters_example :
    let s = session_in started in
    let c = holding s in
    (let (r, v) = bounce dir granting (λ t. record t { quota_remaining = pos 9 }) (view s c) in
      set_quota (quiet dir granting) client (pos 9) c ≡ some (r, put 0 v c))
    × (let (r, v) = bounce dir granting (λ t. record t { bandwidth = 20 }) (view s c) in
        set_bandwidth (quiet dir granting) client 20 c ≡ some (r, put 0 v c))
setters_example =
    setters_lem dir granting 0 (session_in started) (holding (session_in started)) refl
      (found_client (session_in started)) (pos 9) 20

start_session_new_example :
    let s = by_default client no_sessions in
    let b = entered client s no_sessions in
    let (r, v) = start dir granting (view s b) in
    start_session (quiet dir granting) client no_sessions ≡ some (r, put 0 v b)
start_session_new_example = start_session_new dir granting client no_sessions nobody

-- Both interfaces are set, and the text that `arg` fills in is put at the end.
abbrev pub interface : QString → QString
interface key = codes "eth0"

abbrev pub append : QString → QString → QString
append text value = text ++ value

abbrev pub kern_log : Option File
kern_log = some (record { inode = 7; openable = true; bytes = [] })

live_clean_example :
    (result : Construction) × (d : Controller) × (live interface append
        (nested dir all_succeed meanwhile)
        true
        kern_log
        calls
        new_controller
      ≡ some (result, d))
    × Leaves result d
live_clean_example =
    live_clean interface append (nested dir all_succeed meanwhile)
      (nested-Calm dir all_succeed meanwhile (λ r. r, (λ r. r, tt))) true kern_log calls

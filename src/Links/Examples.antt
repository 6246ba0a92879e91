-- ===== src/Links/Examples.antt =====
-- Links at concrete inputs: one link that is added, started, used, changed and recovered.
use terminator.Record.Stubs as Cached
use terminator.Record.Stubs.{StubCache, increment, delete_from}
use terminator.Links.Table.{
  replay_mode, stopped, link_map, find_row, select_link_by_id, update_link, update_at, update_row,
  sets_column, select_rows, select_all_link,
}
use terminator.Links.Maps.{get, put, each_key}
use terminator.Links.Control.{
  Control, start_server, start_new, prepare, config_link, get_plugin_class, get_plugin_instance,
  get_storage, class_name, default_class, start, bound_ports, register, mutate, modify_link,
  recovery_link, recover, recover_one,
}
use terminator.Links.Control.Coherent.{IsCoherent, IsServed}
use terminator.Links.Control.Recovered.{shown_status}
use terminator.Links.Control.Shown.{change_work_mode-Shows, Shows}
use terminator.Links.Control.Lifecycle.{start_server-stop_server, IsUp, IsDownAgain}
use terminator.Links.Control.{change_work_mode, stop_server}
use terminator.Links.Control.Steps.{eq_false}
use terminator.Links.Requests.{starts, stops, deletes, run, restart, distribute_local_port, perform}
use terminator.Links.Requests.Kept.{run-IsCoherent}
use terminator.Links.Requests.Orphans.{deletes-run, Listens}
use terminator.Links.Requests.Ports.{distribute_local_port-IsFirstFree, IsFirstFree}
use terminator.Links.Requests.Restarted.{restart-recovery_link, IsKeyed}
use terminator.Links.Services.{get_stub_data, add_stub_data, delete_stub_data, delete_record}
use terminator.Links.Services.Isolated.{services-throw, add_stub_data-isolated}
use terminator.Base.{Exception, ◌⊎◌}
use terminator.Links.Requests.Restarted.{IsRecovered}
use terminator.Links.Requests.Restarted.Blocked.{IsBlocked}
use terminator.Base.{ℤ, pos, [], ◌∷◌, ◌++◌, none, some, ok, err, link_status, ◌≡◌, refl, arith}
use terminator.Links.Machine.{
  machine, storages, begin, requests, one_row, one_server, one_up, one_down, configured, one_stub,
}

begin-IsCoherent : IsCoherent machine begin
unfolding get find_row
begin-IsCoherent = ((λ id. refl), (λ id. tt), (tt, λ id le. refl))

run-IsCoherent_example : IsCoherent machine (run machine requests begin)
run-IsCoherent_example = run-IsCoherent machine requests begin begin-IsCoherent

one_up-get : get 1 one_up.link_id_server_map ≡ some one_server
unfolding get
one_up-get = refl

deletes-run_example :
    Listens machine 1 9000 (run machine (deletes 1 ∷ stops 1 ∷ starts 1 ∷ stops 1 ∷ []) one_up)
deletes-run_example =
    deletes-run machine 1 one_server (stops 1 ∷ starts 1 ∷ stops 1 ∷ []) one_up (omega arith)
      one_up-get

distribute_local_port-IsFirstFree_example :
    (port : ℤ) × (distribute_local_port machine one_up ≡ ok port)
    × IsFirstFree machine 41999 8001 one_up port
distribute_local_port-IsFirstFree_example = distribute_local_port-IsFirstFree machine one_up

one_up-IsServed : IsServed machine one_up
unfolding get
one_up-IsServed =
    each_key _ 1 (refl, omega arith, (refl, tt)) (λ j ne. rw (eq_false machine 1 j ne) refl)

one_up-IsCoherent : IsCoherent machine one_up
unfolding get find_row
one_up-IsCoherent = (
  one_up-IsServed,
  each_key _ 1 refl (λ j ne. rw (eq_false machine 1 j ne) tt),
  ((omega arith, tt), λ j le. rw (eq_false machine 1 j (λ e. omega (arith, e, le))) refl),
)

one_up-select : select_link_by_id machine 1 one_up.link_table ≡ some (link_map machine one_row)
unfolding select_link_by_id find_row
one_up-select = refl

change_work_mode-Shows_example :
    (s' : Control machine) × (change_work_mode machine 1 replay_mode one_up ≡ (s', ok tt))
    × Shows machine 1 2 replay_mode one_server one_up s'
change_work_mode-Shows_example =
    change_work_mode-Shows machine 1 2 replay_mode one_server (link_map machine one_row) one_up
      one_up-IsServed one_up-get one_up-select (λ e. omega (arith, e))

one_down-select :
    select_link_by_id machine 1 one_down.link_table
    ≡ some (link_map machine (record one_row { work_status = stopped }))
unfolding select_link_by_id find_row
one_down-select = refl

one_down-prepare :
    prepare machine (link_map machine (record one_row { work_status = stopped })) one_down
    ≡ ok (configured, 9000)
unfolding prepare config_link get_plugin_class class_name default_class get_plugin_instance
    get_storage start bound_ports link_map
one_down-prepare = refl

one_down-get : get 1 one_down.link_id_server_map ≡ none
unfolding get
one_down-get = refl

one_down-get_link : get 1 one_down.link_id_link_map ≡ none
unfolding get
one_down-get_link = refl

start_server-stop_server_example :
    (mid s' : Control machine) × (start_server machine 1 one_down ≡ (mid, ok tt))
    × IsUp machine 1 configured 9000 one_down mid
    × (stop_server machine 1 mid ≡ (s', ok tt))
    × IsDownAgain machine 1 one_down s'
start_server-stop_server_example =
    start_server-stop_server machine 1 9000
      (link_map machine (record one_row { work_status = stopped })) configured one_down
      one_down-select one_down-get one_down-get_link one_down-prepare

one_up-IsKeyed : IsKeyed one_up.link_table.rows
unfolding find_row
one_up-IsKeyed = ((λ e. refl), tt)

recovered : Control machine
recovered = (recovery_link machine (restart machine one_up)).0

one_up-recovers : recovery_link machine (restart machine one_up) ≡ (recovered, ok tt)
unfolding recovered recovery_link recover recover_one restart select_all_link select_rows link_map
    start_server select_link_by_id find_row get put start_new prepare config_link get_plugin_class
    class_name default_class get_plugin_instance get_storage start bound_ports register mutate
    modify_link update_link sets_column
one_up-recovers = refl

restart-recovery_link_example :
    ((s' : Control machine) × (recovery_link machine (restart machine one_up) ≡ (s', ok tt))
      × IsRecovered machine one_up s')
    ⊎ ((s' : Control machine) × (x : Exception) × (recovery_link machine (restart machine one_up)
          ≡ (s', err x))
        × IsBlocked machine s' x)
restart-recovery_link_example =
    restart-recovery_link machine one_up one_up-IsCoherent one_up-IsKeyed

abbrev halted : Control machine
halted = run machine (stops 1 ∷ []) one_up

halted-stopped : shown_status 1 halted.link_table.rows ≡ some stopped
unfolding run perform stop_server modify_link update_link update_at update_row sets_column
    select_link_by_id find_row link_map get put mutate
halted-stopped = refl

services-throw_example :
    (get_stub_data machine storages 1 halted ≡ err link_status)
    × (add_stub_data machine storages 1 one_stub halted ≡ (halted, err link_status))
    × (delete_stub_data machine storages 1 (pos 7) halted ≡ (halted, err link_status))
    × (delete_record machine storages 1 (pos 0) halted ≡ (halted, err link_status))
services-throw_example =
    services-throw machine storages (stops 1 ∷ []) 1 (pos 0) (pos 7) one_stub one_up
      one_up-IsCoherent halted-stopped

add_stub_data-isolated_example :
    (s' : Control machine) × (add_stub_data machine storages 1 one_stub one_up ≡ (s', ok (pos 1)))
    × ((s'.heap 0).storage
        ≡ some (Cached.put_stub_data one_stub (record { id = pos 0; stub_data = [] })).1)
    × (get_stub_data machine storages 1 s'
        ≡ ok ([] ++ (record one_stub { id = some (pos 1) } ∷ [])))
    × (get_stub_data machine storages 2 s' ≡ get_stub_data machine storages 2 one_up)
unfolding Cached.put_stub_data increment
add_stub_data-isolated_example =
    add_stub_data-isolated machine storages 1 2 one_stub one_server
      (record { id = pos 0; stub_data = [] })
      (Cached.put_stub_data one_stub (record { id = pos 0; stub_data = [] })).1 (pos 1) [] one_up
      one_up-IsServed one_up-get refl refl refl (λ e. omega (arith, e))

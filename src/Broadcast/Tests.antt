-- ===== src/Broadcast/Tests.antt =====
-- Runs of the manager.
use po_c_go_live.Base.{
  ℕ, suc, String, ◌≡◌, inl, refl, arith, true, false, Option, none, some, List, [], ◌∷◌, ◌++◌,
}
use po_c_go_live.Dict.{get, put}
use po_c_go_live.Events.{new_hub}
use po_c_go_live.Broadcast.State.{Destination, new_manager, Deps, Sys, Manager}
use po_c_go_live.Broadcast.Destinations.{spawn, spawn_all, kill_all, publish_status}
use po_c_go_live.Broadcast.Methods.{
  set_active_client, start, start_for, begin_session, stream_on, stream_off, stop,
  restart_destination, watch,
}
use po_c_go_live.Broadcast.Commands.{Command, selects, starts, stops, restarts, ends, execute, run}
use po_c_go_live.Broadcast.Managed.{IsManaged}
use po_c_go_live.Broadcast.Managed.Keeping.{run-IsManaged}
use po_c_go_live.Broadcast.Started.{IsStarted, start_all_or_nothing}

abbrev destinations : List Destination
destinations =
    record { live_id = "y"; platform_name = "YouTube"; push_url = "rtmp://y" }
    ∷ record { live_id = "t"; platform_name = "Twitch"; push_url = "rtmp://t" }
    ∷ []

-- Something is on air, OBS is not there, and each process has a number of its own.
abbrev deps : Deps ℕ
deps = record {
  obs = none;
  live = some (λ w. true);
  has_hub = false;
  list_active = λ id w. (some destinations, w);
  program_stream_url = "rtmp://program";
  run_process = λ from to w. (inl w, suc w);
  kill = λ p w. w;
}

abbrev begin : Sys ℕ
begin = record { manager = new_manager; watches = []; hub = new_hub; world = 0 }

-- The destination "y" is restarted twice, which gives its runtime the generation 3, the broadcast is
-- stopped and started again, and only then the watcher of the last of its old processes comes to its
-- end.
abbrev restarted : List Command
restarted = selects "c" ∷ starts ∷ restarts "y" ∷ restarts "y" ∷ stops ∷ starts ∷ []

abbrev confusion : List Command
confusion = restarted ++ ends (record { live_id = "y"; gen = 3; proc = 3 }) none ∷ []

abbrev process_of : String → Manager → Option ℕ
process_of id m = elim (get id m.dests) [ none ↦ none | some rt ↦ rt.proc ]

new_process : process_of "y" (run deps restarted begin).manager ≡ some 4
unfolding run execute get put spawn spawn_all kill_all publish_status set_active_client start
    start_for begin_session stream_on stream_off stop restart_destination watch
new_process = refl

-- The new process is lost: nothing kills it any more.
old_watch_hits_new_process : process_of "y" (run deps confusion begin).manager ≡ none
unfolding run execute get put spawn spawn_all kill_all publish_status set_active_client start
    start_for begin_session stream_on stream_off stop restart_destination watch
old_watch_hits_new_process = refl

new_manager-IsManaged : IsManaged new_manager
unfolding get
new_manager-IsManaged i rt g = ground arith

run-IsManaged_example : IsManaged (run deps confusion begin).manager
run-IsManaged_example = run-IsManaged deps confusion begin new_manager-IsManaged

abbrev selected : Sys ℕ
selected = record begin { manager = record new_manager { client = some "c" } }

start_all_or_nothing_example : IsStarted deps destinations [] (start deps selected)
start_all_or_nothing_example = start_all_or_nothing deps "c" destinations selected refl refl refl

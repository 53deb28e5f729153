-- ===== src/Web/Api/System.antt =====
-- mediascanmonitor/web/api/system.py
use syno_plex_change_monitor.Base.{ℕ, Bool, true, false, Option, if◌then◌else◌}
use syno_plex_change_monitor.Base.Lists.{length}
use syno_plex_change_monitor.Base.Text.{Text, codes}
use syno_plex_change_monitor.Db.Tables.{Tables}
use syno_plex_change_monitor.Db.Repo.{get_setting, set_setting, list_servers}
use syno_plex_change_monitor.Engine.{Engine, EngineState, running, Machine, or_enforce}
use syno_plex_change_monitor.Watcher.WatchLimit.{WatchLimitStatus}
use syno_plex_change_monitor.Web.Api.{
  Service, Reply, replied, failed, guarded, tables_of, put_store, status_of,
}
use syno_plex_change_monitor.Web.Writes.{Written, written, refused, Store, rebuild_engine}

pub record StatusRead : Type 0 where
  pub engine_state : EngineState
  pub inotify_gate : Text
  pub watch : Option WatchLimitStatus
  pub server_count : ℕ
  pub enabled_server_count : ℕ

abbrev pub gate_key : Text
gate_key = codes "inotify_gate"

-- `Literal["enforce", "off"]`
pub data GatePolicy : Type 0 where
  enforce off : GatePolicy

abbrev pub policy_value : GatePolicy → Text
policy_value enforce = codes "enforce"
policy_value off = codes "off"

-- The five numbers of the watch limit are one optional record.
unfoldable pub build_status : {W : Type 0} → Tables → Engine W → StatusRead
unfolding get_setting list_servers
build_status t engine = record {
  engine_state = engine.state;
  inotify_gate = or_enforce (get_setting gate_key t);
  watch = engine.watch_limit;
  server_count = length (list_servers false t);
  enabled_server_count = length (list_servers true t);
}

abbrev ready_status : EngineState → ℕ
ready_status running = 200
ready_status _ = 503

module _ {W : Type 0} where
  unfoldable pub health : Service W → Reply (Unit {0}) × Service W
  health s = (replied 200 tt, s)

  -- `GET /ready`, where the database can be read or not.
  unfoldable pub ready : Bool → Service W → Reply (Unit {0}) × Service W
  unfolding guarded
  ready reachable s =
      guarded (λ s. (replied (if reachable then ready_status s.engine.state else 503) tt, s)) s

  unfoldable pub api_status : Service W → Reply StatusRead × Service W
  unfolding guarded build_status
  api_status s = guarded (λ s. (replied 200 (build_status (tables_of s) s.engine), s)) s

  module _ (m : Machine W) where
    abbrev after_rebuild : Written (Unit {0}) × Store W → Service W → Reply StatusRead × Service W
    after_rebuild (written u, store) s =
        (replied 200 (build_status store.tables store.engine), put_store store s)
    after_rebuild (refused e, store) s = (failed (status_of e), put_store store s)

    unfoldable pub set_inotify_gate : GatePolicy → Service W → Reply StatusRead × Service W
    unfolding guarded build_status set_setting rebuild_engine
    set_inotify_gate policy s =
        guarded
          (λ s.
            after_rebuild
              (rebuild_engine m tt (set_setting gate_key (policy_value policy) (tables_of s))
                s.engine)
              s)
          s

    unfoldable pub engine_recheck : Service W → Reply StatusRead × Service W
    unfolding guarded build_status rebuild_engine
    engine_recheck s = guarded (λ s. after_rebuild (rebuild_engine m tt (tables_of s) s.engine) s) s

-- ===== src/Lifecycle/Legacy.antt =====
-- `legacyReporter` of pkg/librevm/ovm.go, and the kinds of event of pkg/librevm/const.go.
use ovm_next.Base.{Text, codes, [], ◌==◌, Bool, true, false, if◌then◌else◌, ◌≡◌, refl}
use ovm_next.Config.{mode_cfg_gen, mode_container}

abbrev pub event_stopped : Text
event_stopped = codes "stopped"

abbrev pub event_error : Text
event_error = codes "error"

abbrev pub event_success : Text
event_success = codes "success"

abbrev pub event_exit : Text
event_exit = codes "exit"

abbrev pub event_podman_ready : Text
event_podman_ready = codes "podman_ready"

abbrev pub stage_of : Text → Text
stage_of run_mode =
    if run_mode == mode_cfg_gen
    then codes "init"
    else if run_mode == mode_container
    then codes "start"
    else run_mode

-- The name that ovm-js knows an event by.
unfoldable pub name_of : Text → Text
name_of kind =
    if kind == event_stopped
    then codes "Exit"
    else if kind == event_podman_ready
    then codes "Ready"
    else if kind == event_error
    then codes "Error"
    else if kind == event_success
    then codes "Success"
    else if kind == event_exit
    then codes "Exit"
    else kind

-- `evtProxy`
unfoldable pub evt_proxy : Text → Text → Text × Text
unfolding name_of
evt_proxy run_mode kind = (stage_of run_mode, name_of kind)

-- The query of `Report`: stage, name and value.
unfoldable pub report_query : Text → Text → Text → Text × Text × Text
unfolding evt_proxy
report_query run_mode kind message =
    let (stage, name) = evt_proxy run_mode kind in
    (stage, name, if name == event_error then message else [])

choose :
    (b : Bool) (x y : Text)
    → (x == event_error) ≡ false
    → (b ≡ false → (y == event_error) ≡ false)
    → ((if b then x else y) == event_error) ≡ false
choose true x y h k = h
choose false x y h k = k refl

name_of-error : (kind : Text) → (name_of kind == event_error) ≡ false
unfolding name_of ◌==◌
name_of-error kind = choose (kind == event_stopped) (codes "Exit") _ refl (λ _.
    choose (kind == event_podman_ready) (codes "Ready") _ refl (λ _.
      choose (kind == event_error) (codes "Error") _ refl (λ other.
        choose (kind == event_success) (codes "Success") _ refl
          (λ _. choose (kind == event_exit) (codes "Exit") kind refl (λ _. other)))))

-- The value that is sent with an event is empty, also where the event is an error with a message.
pub report_query-value :
    (run_mode kind message : Text) → (report_query run_mode kind message).2 ≡ []
unfolding report_query
report_query-value run_mode kind message = rw (name_of-error kind) refl

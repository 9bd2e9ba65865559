-- ===== src/Lib.antt =====
-- macniri, a scrollable-tiling Wayland compositor: the core of its state machines.
--
-- Session models the session lock and the redraw loop of src/niri.rs: Session/Types the state of the
-- outputs and of the lock (`OutputState`, `RedrawState`, `LockState`), Session/Lock the functions `lock`,
-- `maybe_continue_to_locking`, `continue_to_locking`, `unlock`, `new_lock_surface`, `add_output`,
-- `remove_output` and the power of the monitors, Session/Redraw `redraw` and `redraw_queued_outputs` over
-- the backends of src/backend (winit.rs and headless.rs, the ones that are built). Session/Steps puts
-- every request in one step function, Session/Traces sequences of them. Session/Safety, Session/Loop and
-- Session/Completion hold the proofs.
--
-- Monitor models the list of workspaces of one monitor, src/layout/monitor.rs, with the identity, name and
-- output of a workspace of src/layout/workspace.rs. What a workspace contains is the interface `Space`,
-- floating-point positions and animations are the interface `Motion` (Monitor/Types). Monitor/Switch is
-- the switch between workspaces, Monitor/Workspaces and Monitor/Defs the clean-up and the activation,
-- Monitor/Moves the operations on whole workspaces, Monitor/Switching the commands that switch between
-- them, Monitor/Invariant the part of `verify_invariants` that concerns the list. The other files hold the
-- proofs.
--
-- Layout models the monitors together, src/layout/mod.rs: Layout/Types the `MonitorSet`, Layout/Outputs
-- `add_output` and `remove_output` with `Monitor::new`, Layout/Moves `move_workspace_to_output`,
-- `move_workspace_to_output_by_id` and `focus_output`. The global counter of workspace ids is a field of
-- the layout, which each operation of a monitor takes along. Layout/Ownership is what
-- `verify_invariants` asks of the layout: which outputs its workspaces belong to, and that no two
-- workspaces with windows or a name share an id or a name; the ids and original outputs of empty, unnamed
-- ones are not followed. Layout/Counting says how often a workspace stands in a layout, Layout/Views what
-- each monitor shows; Layout/Creation, Layout/Belonging, Layout/Extraction, Layout/Adding,
-- Layout/Rehoming, Layout/Removing, Layout/Carrying and Layout/Sending follow the operations, and Layout/Joining, Layout/Leaving and Layout/Crossing show
-- that they keep the layout valid. Windows across monitors, interactive moves and the overview are not
-- modelled.
--
-- Scrolling models the columns of a workspace, src/layout/scrolling.rs, without positions and sizes:
-- Scrolling/Types the `ScrollingSpace`, Scrolling/Columns how columns and tiles are added and removed,
-- Scrolling/Commands the focus and move commands, Scrolling/Transfer the commands that move a window
-- between columns. Scrolling/Invariant is the part of `verify_invariants` that concerns columns, tiles and
-- indices, with how often a window stands in the columns; Scrolling/Removal, Scrolling/Insertion,
-- Scrolling/Consuming, Scrolling/Expelling, Scrolling/Moving, Scrolling/Exchanging, Scrolling/Placing,
-- Scrolling/Swapping, Scrolling/Activating and Scrolling/Focusing hold the proofs for single commands.
-- Scrolling/Sequences is the sequences of commands, Scrolling/Preserving what they keep.
--
-- Ipc models the state that clients of the event stream keep, niri-ipc/src/state.rs: Ipc/Types the events
-- and their data (niri-ipc/src/lib.rs; the floating-point `WindowLayout` is a type parameter), Ipc/State
-- `apply` and `replicate` of the state and of its parts. Ipc/Keyed, Ipc/Replicate, Ipc/Reached, Ipc/Focus
-- and Ipc/Active hold the proofs. Ipc/Refresh is `ipc_refresh_windows` of src/ipc/server.rs, which compares
-- the windows of the layout with this state and sends the events that are missing; the comparison of two
-- window layouts is a parameter. Ipc/Effects says what an event does to one entry of the map, Ipc/Runs what
-- a list of events does; Ipc/Entries, Ipc/Refreshing, Ipc/Refreshed, Ipc/Readiness and Ipc/Refinement hold
-- the proof for the refresh.
--
-- FrameClock models src/frame_clock.rs: FrameClock/Defs the clock and `next_presentation_time`, with the
-- wrap-around of its 64-bit arithmetic, FrameClock/Prediction the proofs.
--
-- A Rust panic (an index out of range, an unwrap, an assertion) is `none` or `panicked`. A `HashMap` is an
-- association list whose order stands for the order of iteration. The loop `redraw_queued_outputs` has
-- fuel, and one round for each queued output and one more are enough. Timers, clients and the event loop
-- appear as arguments and as a list of effects. The closing of overlays, cursors, frame callbacks,
-- screencasts and the contents of frames are not modelled, nor is src/backend/tty.rs, which is not built.
--
-- Examples holds concrete inputs and runs.
pub mod Base
pub mod FrameClock
pub mod Ipc
pub mod Layout
pub mod Monitor
pub mod Scrolling
pub mod Session
pub mod Examples

-- ===== src/Lib.antt =====
-- gamescope: the policy and scheduling core of frame generation, the vertical-blank timer, the
-- priority of windows for focus, the latching of done commits, the buffers lent to PipeWire, the
-- barriers of a command buffer, and the utilities that own textures, fences and modes.
--
-- gamescope presents the frames of a game through a nested compositor. Its vertical-blank timer
-- says when to compose, its frame generator inserts generated frames between the real ones. The
-- renderer (src/rendervulkan.cpp) records and submits the GPU work, and takes its decisions from
-- the headers under src/framegen, which are free of Vulkan and of global state: each function gets
-- the state and an observation, and returns the new state and a verdict. These headers are
-- modelled here, and so are the parts of src named below, function by function, with the C++ names
-- in snake_case: state structs are records, enums are data types, a function that changes a state
-- returns the new one, and std::optional is Option.
--
--   Common            Boolean tests on the native numbers, lists, options, quotients, uint32_t and
--                     uint64_t words that wrap, and the integers that stand for int64_t.
--   Vblank.Refresh, Vblank.Schedule, Vblank.Timer
--                     src/refresh_rate.h, src/vblankmanager.cpp and .hpp: rates and refreshes,
--                     CalcNextWakeupTime with its draw-time filter and the loop of GetNextVBlank, and
--                     CVBlankTimer as a state with its operations: arming, the timerfd that expires,
--                     the nudge thread and the reads of its pipe with their errors.
--   Rc                src/rc.h: RcObject and Rc over a store of objects: both counts, the
--                     constructors, assignments, destructor and comparisons of handles.
--   BufferMemo        src/BufferMemo.cpp and .h: CBufferMemoizer as an association list with its
--                     assertions and destroy listeners.
--   CommitFence       src/commit.cpp and commit.h: commit_t as a waitable that owns a fence.
--   Modegen           src/modegen.cpp: generate_fixed_mode.
--   Focus             src/steamcompmgr.cpp, src/steamcompmgr_shared.hpp: the tests on windows (whether
--                     a window is useless, a dropdown, disabled, ...), is_focus_priority_greater as a
--                     comparison that may throw, and pick_primary_focus_and_override with its loops
--                     along transient links, over windows with addresses.
--   DoneCommits       src/steamcompmgr.cpp: handle_done_commit, with what it repaints, the passes over
--                     the done lists of XWAYLAND and XDG windows, and
--                     steamcompmgr_should_vblank_window with its limits of the rate.
--   Pipewire          src/pipewire.cpp and .hpp, and paint_pipewire of src/steamcompmgr.cpp: the life
--                     of a buffer between the PipeWire thread and the compositor, over a heap.
--   Vulkan.Barriers   src/rendervulkan.cpp and .hpp: the states of images that CVulkanCmdBuffer tracks
--                     and the barriers that it records, for both synchronization versions; Emit has
--                     the operations that record, the others what the proofs are about.
--   Vulkan.Submission src/rendervulkan.cpp and .hpp: the command buffers of CVulkanDevice for the queue of
--                     the compositor, from commandBuffer to submit, resetCmdBuffers and wait,
--                     and the slices of its upload buffer.
--   Utils.Algorithm   src/Utils/Algorithm.h: the plain and the unrolled searches.
--   Framegen.Cadence  scheduling.hpp: the source-cadence predictor (update_cadence_predictor,
--                     predicted_cadence_interval_ns) and fixed_cadence_admission.
--   Framegen.Gap      scheduling.hpp, temporal.hpp: gaps in vblanks, generated slots, the cadence
--                     score, and the interval tests of the pacing policies.
--   Framegen.Policy   types.hpp, policy.hpp: modes, pipelines, and effective_config, which resolves
--                     a rung of the degradation ladder.
--   Framegen.Ladder   scheduling.hpp: budgets, the miss window, the deadline ladder, the recovery
--                     controller with its back-off, and the choice of the rung to climb to.
--   Framegen.Timestamp, Framegen.Grid
--                     deadline.hpp: guarded signed arithmetic on timestamps, and the display grid
--                     D0 + n * T with its wakes.
--   Framegen.Anchor, Framegen.Lead, Framegen.Chain
--                     deadline.hpp: the three learners of a display chain (presentation bias,
--                     habitual and minimum viable present lead), the anchor that flip feedback
--                     corrects, and the reset of the learners when the chain changes.
--   Framegen.Temporal, Framegen.Causal
--                     temporal.hpp, deadline.hpp: strengths and phases, and the planner of the next
--                     causal slot with each of its skip reasons.
--   Framegen.Commit   deadline.hpp: fixed-refresh commit plans, early commits, the VRR midpoint.
--   Framegen.Bidir, Framegen.Slots, Framegen.Shed
--                     deadline.hpp: the bidirectional timeline's epoch, scene cuts and queue
--                     capacities, the planner of its slots, and the shedding of a queue that is over
--                     its capacity.
--   Framegen.QueryRing
--                     query_ring.hpp: the choice of a slot for a GPU timestamp query.
--   Framegen.NetProfile
--                     net_layout.hpp, net_profile.hpp, numeric.hpp: the header of a stored network
--                     profile, and the check and migration of its weights.
--   Framegen.Metrics  metrics.hpp: the histogram of durations and its percentiles.
--
-- How they interact: an admission (Causal) reads the predictor (Cadence), the grid (Grid), and the
-- anchor (Anchor); a commit plan (Commit) reads the learners (Lead); flip feedback goes to Anchor
-- and Lead, whose lifetime Chain decides; a missed deadline goes to the ladder (Ladder), whose
-- step count Policy turns into a configuration, and whose cost keys use the slot counts of Gap.
-- Vblank.Timer calls Vblank.Schedule under its mutex, so its operations are steps in some order;
-- the draw times it is fed and the times it delivers are those of the compositor. A commit
-- (CommitFence) is held by handles of Rc, as are the textures that BufferMemo keeps by private
-- handles. When its fence signals, it joins a done list, which DoneCommits takes up at the next
-- vertical blank: the commit becomes the newest of its window, whose priority is that of Focus.
-- Each event of Pipewire is a step of one thread; the theorems on races split such a step. A
-- command buffer that Vulkan.Submission gives out is recorded with the barriers of Vulkan.Barriers
-- and ends with the flush that submitInternal asks for; the tracked states are cleared when
-- resetCmdBuffers makes it unused.
--
-- Numbers: an unsigned value is a natural number. An operation that the code leaves unguarded
-- wraps (add_u32, mul_u64, to_u64, ...); one behind a guard of the code is exact. A signed value
-- is an integer with exact arithmetic: overflow of int64_t has no behaviour to model, and where an
-- overflow question is studied it is a theorem; generate_fixed_mode, whose int product can
-- overflow, gives none there, and max_degrade_steps wraps, as compiled code does. Floating point is carried and compared only: the operations are the
-- parameter Floats, with numbers in thousandths as a value to run the planners with.
--
-- Loops: the loops of effective_config, of the rung scan, of the slot planner, of the query ring,
-- of the histogram, of the unrolled searches, of the first pass of the queue shedding, of the
-- passes over the done lists, of the barriers and of resetCmdBuffers are recursion on a count or a
-- list. Five run on fuel: follow_transients and resolve_overrides with one turn more than the
-- height of the window they start from in the links, count_bits with 32 rounds for the 32 bits of
-- a word, shed_endpoints with as many rounds as entries, each of which removes one, and
-- advance_to_now with one round more than the refreshes that fit before now, and one to leave the
-- loop.
--
-- What a call outside returns is an input: the clock, the state of the connector, the schedule of
-- FrameSync, the reads of the nudge pipe, the buffer that PipeWire gives and whether a connector
-- runs with VRR. The masks of pipeline stages and of accesses are records of the bits that the
-- code uses, and the empty mask of stages is the top of the pipe. A function that traps, aborts,
-- fails an assertion or does not end gives none, a use of a deleted object is an outcome of its
-- own.
--
-- The modules Examples run the theorems at concrete inputs.
--
-- Not modelled: the rest of the renderer and of the compositor's main loop, the Wayland server,
-- the output backends, the Vulkan layer and the Lua scripting, which are calls of Vulkan, DRM,
-- wlroots, X11 and sol over global state; the queue of the frame generator, descriptors and shader
-- constants of a command buffer, and the stream formats of PipeWire; the waitables, timelines and
-- child processes, which are system calls; the generator of CVT modes, which computes in floating
-- point; and textures, colour spaces and presentation feedback of a commit. Of src/framegen, the
-- settings, the adaptation of the network and the dispatch policy are left out, and so are the HUD
-- text, the shader constants, the choice of the Vulkan device and the replacement of files, which
-- are output or answers of drivers.
pub mod BufferMemo
pub mod CommitFence
pub mod Common
pub mod DoneCommits
pub mod Focus
pub mod Framegen
pub mod Modegen
pub mod Pipewire
pub mod Rc
pub mod Utils
pub mod Vblank
pub mod Vulkan

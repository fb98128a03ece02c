-- ===== src/Thread/Tests.antt =====
-- The capture thread of the audio stream, and a thread with no demands.
use imx8mp_building_blocks.Base.{◌≡◌, refl, none, some, [], ◌∷◌}
use imx8mp_building_blocks.Base.Bytes.{codes}
use imx8mp_building_blocks.Base.Words.{minus_one}
use imx8mp_building_blocks.Thread.{
  Thread, attr_policy, attr_priority, attr_explicit, create_thread, affinity, named, thread_spawn,
  pin,
}

abbrev capture : Thread
capture = record {
  name = some (codes "capture");
  cpu_affinity = 2;
  sched_policy = 1;
  priority = 80;
  stack_size = 0;
}

abbrev plain : Thread
plain = record {
  name = none;
  cpu_affinity = minus_one;
  sched_policy = 0;
  priority = 0;
  stack_size = 0;
}

spawned : thread_spawn 0 capture ≡ (
  0,
  attr_policy 1
      ∷ attr_priority 80
      ∷ attr_explicit
      ∷ create_thread
      ∷ affinity (some 2)
      ∷ named (codes "capture")
      ∷ [],
)
unfolding thread_spawn
spawned = refl

-- A thread that is not created gets neither processor nor name.
refused :
    thread_spawn 1 capture
    ≡ (1, attr_policy 1 ∷ attr_priority 80 ∷ attr_explicit ∷ create_thread ∷ [])
unfolding thread_spawn
refused = refl

plainly : thread_spawn 0 plain ≡ (0, attr_explicit ∷ create_thread ∷ [])
unfolding thread_spawn
plainly = refl

-- A number that is no processor leaves the set empty.
nowhere : (pin 22 minus_one).1 ≡ affinity none ∷ []
unfolding pin
nowhere = refl

-- ===== src/Slots/Hotplug/Stopped.antt =====
-- pi/portal.py `stop_proxy`: what it leaves.
use embedded_ai_harness.Prelude.{◌≡◌, refl, false}
use embedded_ai_harness.Slots.{Slot}
use embedded_ai_harness.Slots.Hotplug.{Env, stop_proxy}

pub stop_proxy-stopped :
    (env : Env) (s : Slot)
    → ((stop_proxy env s).0.running ≡ false)
      × ((stop_proxy env s).0.present ≡ s.present)
      × ((stop_proxy env s).0.state ≡ s.state)
unfolding stop_proxy
stop_proxy-stopped env s = (refl, refl, refl)

pub stop_proxy-pins :
    (env : Env) (s : Slot)
    → ((stop_proxy env s).0.gpio_boot ≡ s.gpio_boot) × ((stop_proxy env s).0.gpio_en ≡ s.gpio_en)
unfolding stop_proxy
stop_proxy-pins env s = (refl, refl)

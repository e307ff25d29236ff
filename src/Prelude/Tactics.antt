-- ===== src/Prelude/Tactics.antt =====
-- Sets of lemmas for the tactics.
use native.Mathlib.Omega.{arith}
use link_chat.Prelude.Tests.{ltb→lt, lt→ltb, leb→le, le→leb}
use link_chat.Prelude.Lists.{length-append, length-take, length-drop, length-replicate}

pub ruleset tests = (arith, ltb→lt, lt→ltb, leb→le, le→leb)

pub ruleset lengths = (length-append, length-take, length-drop, length-replicate)

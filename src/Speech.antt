-- ===== src/Speech.antt =====
-- Spoken intents, src/speech/speech_interface/speech_interface/intent_contract.py.
pub mod Intent
pub mod Spoken
pub mod Admitted
mod Tests

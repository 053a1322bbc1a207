-- ===== src/Turing.antt =====
-- tp0/src: a simulator of Turing machines.
pub mod Machine
pub mod Text

-- ===== src/Pairing.antt =====
-- Who plays whom: the pure parts of the pairing functions of src/models/brackets.rs.
pub mod RoundRobin
pub mod Swiss

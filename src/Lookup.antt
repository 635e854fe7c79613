-- ===== src/Lookup.antt =====
-- oak_functions_service: the hash table of lookup data, and the manager that replaces it.
pub mod Run
pub mod Chunk
pub mod Hash
pub mod Htbl
pub mod Insert
pub mod Slots
pub mod Placed
pub mod View
pub mod LenLaws
pub mod PairLaws
pub mod ElementLaws
pub mod HeapLaws
pub mod RoomLaws
pub mod NewDataLaws
pub mod HashLaws
pub mod ProbeLaws
pub mod TableLaws
pub mod PutLaws
pub mod ReserveLaws
pub mod GrowLaws
pub mod MoveLaws
pub mod GrownLaws
pub mod Models
pub mod Refines
pub mod Manager
pub mod ManagerLaws
pub mod TooLarge
pub mod Tests

-- ===== src/Handlers/Definite.antt =====
-- `User` of handlers/oracle.go and the handlers of handlers/identity.go and transfers.go that sign, as they
-- are mounted: the status of the answer says whether there is what was asked for.
